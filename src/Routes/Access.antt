-- ===== src/Routes/Access.antt =====
-- What the responses show of groups and keys that are not the caller's, and what a token is good for.
use ark_esp_backend.Prelude.{ℕ, String, ◌≡◌, refl, ◌⊎◌, true, false, err}
use ark_esp_backend.Models.{State}
use ark_esp_backend.Secrets.{hash_token}
use ark_esp_backend.Auth.Bearer.{AccountClaims}
use ark_esp_backend.Sharing.Service.{GroupInviteCreate}
use ark_esp_backend.Sharing.View.{is_member}
use ark_esp_backend.Sharing.Validity.{has_group}
use ark_esp_backend.Sharing.Access.{outsider, outsider_learns_nothing}
use ark_esp_backend.Routes.Http.{problem}
use ark_esp_backend.Routes.Groups.{
  get_group, delete_group_by_id, get_group_members, delete_group_member, post_leave_group,
  post_group_invite, group_not_found,
}
use ark_esp_backend.Routes.Accounts.{post_active_group}

-- An account outside a group gets a 404 from every route that names the group, the same whether the
-- group exists or not, and nothing is written.
pub outsider_gets_404 :
    (g : ℕ) (claims : AccountClaims) (s : State)
    → ((has_group g s.db ≡ false) ⊎ (is_member g claims.account_id s.db ≡ false))
    → (hash_token : String → String) (id now : ℕ) (token : String) (body : GroupInviteCreate)
      (b : ℕ)
    → (get_group g claims s ≡ (err group_not_found, s))
      × (get_group_members g claims s ≡ (err group_not_found, s))
      × (post_group_invite hash_token id now token g body claims s ≡ (err group_not_found, s))
      × (post_leave_group g claims s ≡ (err group_not_found, s))
      × (delete_group_member g b claims s ≡ (err (problem 404 "member_not_found"), s))
      × (delete_group_by_id g claims s ≡ (err group_not_found, s))
      × (post_active_group g claims s ≡ (err group_not_found, s))
unfolding get_group get_group_members post_group_invite post_leave_group delete_group_member
    delete_group_by_id post_active_group
outsider_gets_404 g claims s out hash_token id now token body b =
    let (members, invite, leave, remove, delete, share) =
      outsider_learns_nothing g claims.account_id s out hash_token id now token body b true in
    (
      rw (outsider g claims.account_id s out) refl,
      rw members refl,
      rw invite refl,
      rw leave refl,
      rw remove refl,
      rw delete refl,
      rw share refl,
    )
