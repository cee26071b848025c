-- ===== src/Sharing/Invites/Race.antt =====
-- `join_group` in two requests at once. `insert_member` commits, and that commit releases the row
-- lock which `get_invite_by_token_hash_for_update` took, before the use is counted.
use ark_esp_backend.Prelude.{
  ℕ, String, ◌+◌, ◌≡◌, ◌≢◌, refl, ◌∙◌, ap, ◌⊎◌, inl, inr, Bool, true, false, some, ◌∷◌, arith,
  Option-cases, ok, err, Result, is_some,
}
use ark_esp_backend.Prelude.Int.{pos}
use ark_esp_backend.Prelude.Table.{find, update, find-update, change}
use ark_esp_backend.Models.{GroupMember, GroupInviteToken, State, Db, is_group_role}
use ark_esp_backend.Sharing.Repo
use ark_esp_backend.Sharing.Repo.{
  has_account_id, get_by_id, get_member, has_token_hash, get_invite_by_token_hash_for_update,
}
use ark_esp_backend.Sharing.Service.{
  SharingError, join_admit, join_count, join_share, count_use, joined, is_unusable, set_active,
}
use ark_esp_backend.Sharing.View.{is_member}
use ark_esp_backend.Sharing.Validity.{has_group}
use ark_esp_backend.Sharing.Invites.{has_id}

-- the rest of `join_group` after its first transaction
unfoldable pub join_finish :
    ℕ → Bool → Result SharingError (GroupInviteToken × GroupMember) → State → State
join_finish account_id cache (err e) s = s
join_finish account_id cache (ok (invite, member)) s =
    (join_share account_id invite.group_id cache (join_count invite s).1).1

-- Two calls of `join_group` with one token: the first transaction of each, then the rest of each.
unfoldable pub overlapping_joins :
    (String → String) → ℕ → (account_id other_id : ℕ) → String → Bool → State → State
overlapping_joins hash_token now a b token cache s =
    let (first, s₁) = join_admit hash_token now a token s in
    let (second, s₂) = join_admit hash_token now b token s₁ in
    join_finish b cache second (join_finish a cache first s₂)

-- What lets an account through the first transaction.
pub record MayJoin (hash_token : String → String) (now a : ℕ) (token : String)
    (i : GroupInviteToken) (db : Db) : Type 0 where
  pub found : get_invite_by_token_hash_for_update (hash_token token) db ≡ some i
  pub usable : is_unusable now i ≡ false
  pub outside : is_member i.group_id a db ≡ false
  pub group : has_group i.group_id db ≡ true
  pub account : is_some (get_by_id a db) ≡ true
  pub role : is_group_role i.grants_role_code ≡ true

with_member : GroupMember → Db → Db
with_member m db = record db { members = m ∷ db.members }

module _ (hash_token : String → String) (now : ℕ) (token : String) (i : GroupInviteToken) where
  join_admit_ok :
      (a : ℕ) (s : State)
      → MayJoin hash_token now a token i s.db
      → join_admit hash_token now a token s
        ≡ (ok (i, joined now a i), record s { db = with_member (joined now a i) s.db })
  unfolding join_admit with_member Repo.insert_member is_member has_group
  join_admit_ok a s may = ground arith

  -- The first transaction of one account leaves the way of another open.
  MayJoin-with_member :
      (a b : ℕ) (db : Db)
      → a ≢ b
      → MayJoin hash_token now b token i db
      → MayJoin hash_token now b token i (with_member (joined now a i) db)
  unfolding with_member get_invite_by_token_hash_for_update has_group Repo.get_group_by_id get_by_id
      is_member get_member
  MayJoin-with_member a b db ne may = record {
    found = may.found;
    usable = may.usable;
    outside = ground (arith, may.outside);
    group = may.group;
    account = may.account;
    role = may.role;
  }

both_in :
    (g a : ℕ) (m n : GroupMember) (db : Db)
    → (((m.group_id ≡ g) × (m.account_id ≡ a)) ⊎ ((n.group_id ≡ g) × (n.account_id ≡ a)))
    → is_member g a (with_member n (with_member m db)) ≡ true
unfolding is_member get_member with_member
both_in g a m n db h = ground arith

module _ (a : ℕ) (cache : Bool) (i : GroupInviteToken) (m : GroupMember) (s : State) where
  is_member-join_finish :
      (g c : ℕ) → is_member g c (join_finish a cache (ok (i, m)) s).db ≡ is_member g c s.db
  unfolding join_finish join_share join_count set_active
  is_member-join_finish g c = elim (Option-cases (find (has_account_id a) s.db.accounts)) [
    | inl e ↦ unfold is_member get_member get_by_id in rw e
    | inr (r, e) ↦ unfold is_member get_member get_by_id in rw e
  ]

  invite-join_finish :
      (h : String)
      → get_invite_by_token_hash_for_update h (join_finish a cache (ok (i, m)) s).db
        ≡ change (has_id i.id) count_use (get_invite_by_token_hash_for_update h s.db)
  unfolding join_finish join_share join_count set_active get_invite_by_token_hash_for_update
  invite-join_finish h = elim (Option-cases (find (has_account_id a) s.db.accounts)) [
    | inl e ↦ unfold get_by_id in rw e (counted h)
    | inr (r, e) ↦ unfold get_by_id in rw e (counted h)
  ]
    where
      counted :
          (h : String)
          → find (has_token_hash h) (update (has_id i.id) count_use s.db.invites)
            ≡ change (has_id i.id) count_use (find (has_token_hash h) s.db.invites)
      counted h =
          find-update (has_token_hash h) (has_id i.id) count_use s.db.invites
            (λ x. unfold count_use in refl)

module _ (hash_token : String → String) (now a b : ℕ) (token : String) (i : GroupInviteToken)
    (cache : Bool) (s : State) where
  -- Where two different accounts may each join by an invitation, two overlapping calls let both in
  -- and count two uses, also if the invitation had only one use left: its limit does not hold then.
  pub overlapping_joins_exceed :
      a ≢ b
      → MayJoin hash_token now a token i s.db
      → MayJoin hash_token now b token i s.db
      → i.max_uses ≡ some (pos (i.uses_count + 1))
      → let s' = overlapping_joins hash_token now a b token cache s in
        (is_member i.group_id a s'.db ≡ true)
        × (is_member i.group_id b s'.db ≡ true)
        × ((j : GroupInviteToken) × (get_invite_by_token_hash_for_update (hash_token token) s'.db
              ≡ some j)
            × (j.max_uses ≡ some (pos (i.uses_count + 1)))
            × (j.uses_count ≡ i.uses_count + 2))
  unfolding overlapping_joins
  overlapping_joins_exceed ne may_a may_b limit =
      let s₁ : State = record s { db = with_member (joined now a i) s.db } in
      let s₂ : State = record s₁ { db = with_member (joined now b i) s₁.db } in
      let s₃ = join_finish a cache (ok (i, joined now a i)) s₂ in
      rw (join_admit_ok hash_token now token i a s may_a) (
        rw
          (join_admit_ok hash_token now token i b s₁
            (MayJoin-with_member hash_token now token i a b s.db ne may_b))
          (
            is_member-join_finish b cache i (joined now b i) s₃ i.group_id a
                ∙ is_member-join_finish a cache i (joined now a i) s₂ i.group_id a
                ∙ both_in i.group_id a (joined now a i) (joined now b i) s.db (inl (refl, refl)),
            is_member-join_finish b cache i (joined now b i) s₃ i.group_id b
                ∙ is_member-join_finish a cache i (joined now a i) s₂ i.group_id b
                ∙ both_in i.group_id b (joined now a i) (joined now b i) s.db (inr (refl, refl)),
            (
              count_use (count_use i),
              invite-join_finish b cache i (joined now b i) s₃ (hash_token token)
                  ∙ ap (change (has_id i.id) count_use)
                      (invite-join_finish a cache i (joined now a i) s₂ (hash_token token))
                  ∙ twice,
              unfold count_use in limit,
              unfold count_use in omega arith,
            ),
          ))
    where
      twice :
          change (has_id i.id) count_use (
            change (has_id i.id) count_use (
              get_invite_by_token_hash_for_update
                (hash_token token)
                (with_member (joined now b i) (with_member (joined now a i) s.db))))
          ≡ some (count_use (count_use i))
      twice =
          unfold with_member get_invite_by_token_hash_for_update count_use in
          ground (arith, may_a.found)
