-- ===== src/Sharing/Access.antt =====
-- Who may do what: the error paths of the sharing service, and what leaving a group revokes.
use ark_esp_backend.Prelude.{
  ℕ, String, ◌≡◌, ◌≢◌, ◌⊎◌, refl, ◌∙◌, inl, inr, Bool, true, false, none, some, ◌∷◌, arith, ◌==◌,
  Bool-cases, Option-cases, ok, err, err-ne-ok, equals_some, is_some,
}
use ark_esp_backend.Models.{SharingGroup, GroupMember, State, Db}
use ark_esp_backend.Sharing.Repo
use ark_esp_backend.Sharing.Repo.{get_by_id, get_member, get_group_by_id}
use ark_esp_backend.Sharing.Cache
use ark_esp_backend.Sharing.Service
use ark_esp_backend.Sharing.Service.{
  SharingError, not_found, forbidden, owner_cannot_leave, GroupInviteCreate, get_group_for_member,
  require_owner, clear_active_if_matches, clear_active,
}
use ark_esp_backend.Sharing.View.{
  is_member, active_group, is_member-delete_member, is_member-accounts, active_group-assign,
  active_group-delete_member,
}
use ark_esp_backend.Sharing.Validity.{owner_of, has_group}
use ark_esp_backend.Sharing.Mirror.{require_owner-cases}
use ark_esp_backend.Sharing.Mirror.Methods.{get_member_key}

module _ (g a : ℕ) (s : State) where
  pub outsider :
      ((has_group g s.db ≡ false) ⊎ (is_member g a s.db ≡ false))
      → get_group_for_member g a s ≡ (err not_found, s)
  unfolding get_group_for_member has_group is_member
  outsider out = ground arith

  -- An account outside a group gets, from every method that it may name the group to, the error of
  -- a group that does not exist, and nothing is written.
  pub outsider_learns_nothing :
      ((has_group g s.db ≡ false) ⊎ (is_member g a s.db ≡ false))
      → (hash_token : String → String) (id now : ℕ) (token : String) (spec : GroupInviteCreate)
        (b : ℕ) (cache : Bool)
      → (Service.list_members g a s ≡ (err not_found, s))
        × (Service.create_invite hash_token id now token g a spec s ≡ (err not_found, s))
        × (Service.leave_group g a cache s ≡ (err not_found, s))
        × (Service.remove_member g a b cache s ≡ (err not_found, s))
        × (Service.delete_group g a cache s ≡ (err not_found, s))
        × (Service.set_active_group a g cache s ≡ (err not_found, s))
  unfolding Service.list_members Service.create_invite Service.leave_group Service.remove_member
      Service.delete_group Service.set_active_group require_owner
  outsider_learns_nothing out hash_token id now token spec b cache =
      let e = outsider out in (rw e, rw e, rw e, rw e, rw e, rw e)

  -- A member who does not own the group may not invite, remove a member or delete the group, and
  -- nothing is written.
  pub member_may_not_manage :
      (o : ℕ)
      → owner_of g s.db ≡ some o
      → o ≢ a
      → is_member g a s.db ≡ true
      → (hash_token : String → String) (id now : ℕ) (token : String) (spec : GroupInviteCreate)
        (b : ℕ) (cache : Bool)
      → (Service.create_invite hash_token id now token g a spec s ≡ (err forbidden, s))
        × (Service.remove_member g a b cache s ≡ (err forbidden, s))
        × (Service.delete_group g a cache s ≡ (err forbidden, s))
  unfolding Service.create_invite Service.remove_member Service.delete_group
  member_may_not_manage o owned other member hash_token id now token spec b cache =
      let e = refused o owned other member in (rw e, rw e, rw e)
    where
      refused :
          (o : ℕ)
          → owner_of g s.db ≡ some o
          → o ≢ a
          → is_member g a s.db ≡ true
          → require_owner g a s ≡ (err forbidden, s)
      refused o owned other member =
          unfold require_owner get_group_for_member owner_of is_member in ground arith

  -- The owner of a group who is a member of it cannot leave it, nor remove himself; nothing is
  -- written.
  pub owner_stays :
      owner_of g s.db ≡ some a
      → is_member g a s.db ≡ true
      → (cache : Bool)
      → (Service.leave_group g a cache s ≡ (err owner_cannot_leave, s))
        × (Service.remove_member g a a cache s ≡ (err forbidden, s))
  unfolding Service.leave_group Service.remove_member require_owner get_group_for_member owner_of
      is_member
  owner_stays owned member cache = ground arith

owner_of_found :
    (g a : ℕ) (r : SharingGroup) (db : Db)
    → get_group_by_id g db ≡ some r
    → r.owner_account_id ≡ a
    → owner_of g db ≡ some a
unfolding owner_of
owner_of_found g a r db found owner = rw (found, owner)

-- What is left of an account once it is out of the group.
pub record Expelled (g b : ℕ) (s t : State) : Type 0 where
  pub out : is_member g b t.db ≡ false
  pub out_in_redis : t.redis.member g b ≡ false
  pub revoked : t.redis.revoked ≡ (g, b) ∷ s.redis.revoked
  pub shares_elsewhere : active_group b t.db ≢ some g
  pub others : (h c : ℕ) → ((h ≢ g) ⊎ (c ≢ b)) → is_member h c t.db ≡ is_member h c s.db
  pub others_share : (c : ℕ) → c ≢ b → active_group c t.db ≡ active_group c s.db

module _ (m : GroupMember) (g b : ℕ) (s : State) (eg : m.group_id ≡ g) (eb : m.account_id ≡ b) where
  deleted : State
  deleted = record { db = Repo.delete_member m s.db; redis = Cache.remove_member g b s.redis }

  expel_inactive : active_group b deleted.db ≢ some g → Expelled g b s deleted
  unfolding deleted Cache.remove_member
  expel_inactive elsewhere = record {
    out = ground (arith, is_member-delete_member m s.db g b);
    out_in_redis = ground arith;
    revoked = refl;
    shares_elsewhere = elsewhere;
    others = λ h c ne. ground (arith, is_member-delete_member m s.db h c);
    others_share = λ c ne. active_group-delete_member m c s.db;
  }

  expel_active :
      is_some (get_by_id b deleted.db) ≡ true → Expelled g b s (clear_active b true deleted).1
  unfolding deleted clear_active Cache.remove_member Cache.clear_active_group
  expel_active known = record {
    out =
        is_member-accounts _ g b (Repo.delete_member m s.db)
        ∙ ground (arith, is_member-delete_member m s.db g b);
    out_in_redis = ground arith;
    revoked = refl;
    shares_elsewhere =
        λ e. ground (arith, active_group-assign none b b (Repo.delete_member m s.db));
    others = λ h c ne.
        is_member-accounts _ h c (Repo.delete_member m s.db)
        ∙ ground (arith, is_member-delete_member m s.db h c);
    others_share = λ c ne.
        active_group-assign none b c (Repo.delete_member m s.db)
        ∙ ground (arith, active_group-delete_member m c s.db);
  }

  expel : Expelled g b s (clear_active_if_matches b g true deleted).1
  unfolding clear_active_if_matches
  expel = elim (Option-cases (get_by_id b deleted.db)) [
    | inl e ↦ rw e (expel_inactive (unfold active_group in ground arith))
    | inr (r, e) ↦ elim (Bool-cases (equals_some r.active_group_id g)) [
      | inl same ↦ rw (e, same) (expel_active (ground arith))
      | inr other ↦ rw (e, other) (expel_inactive (unfold active_group in ground arith))
    ]
  ]

-- A call of `remove_member` that succeeds was made by the owner against somebody else. It takes the
-- account out of the group in the tables and in Redis, publishes the revocation, and leaves the
-- account sharing nowhere or into another group; no other membership and no other account changes.
pub remove_member_expels :
    (g a b : ℕ) (s : State)
    → (Service.remove_member g a b true s).0 ≡ ok tt
    → (owner_of g s.db ≡ some a) × (b ≢ a) × Expelled g b s (Service.remove_member g a b true s).1
unfolding Service.remove_member
remove_member_expels g a b s done = elim (require_owner-cases g a s) [
  | inl (x, e) ↦ absurd (err-ne-ok x tt (rw e at done))
  | inr (r, m, found, member, owner, e) ↦ elim (Bool-cases (b == a)) [
    | inl self ↦ absurd (err-ne-ok forbidden tt (rw (e, self) at done))
    | inr other ↦ elim (Option-cases (get_member g b s.db)) [
      | inl absent ↦ absurd (err-ne-ok not_found tt (rw (e, other, absent) at done))
      | inr (n, target) ↦
          let (eg, eb) = get_member_key g b s.db n target in
          (
            owner_of_found g a r s.db found owner,
            ground arith,
            rw (e, other, target) (unfold deleted in expel n g b s eg eb),
          )
    ]
  ]
]
