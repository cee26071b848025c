-- ===== src/Sharing/Validity/Methods.antt =====
-- Each method of the sharing service keeps the tables valid, with a cache or without one.
use ark_esp_backend.Prelude.{
  ℕ, String, ◌≡◌, refl, ◌∙◌, ◌≢◌, inl, inr, Bool, true, false, some, arith, ◌==◌, Bool-cases,
  Option-cases, after-pure,
}
use ark_esp_backend.Models.{SharingGroup, GroupMember, State, Db}
use ark_esp_backend.Sharing.Repo
use ark_esp_backend.Sharing.Repo.{get_by_id, get_member, get_group_by_id, has_group_id}
use ark_esp_backend.Sharing.Service.{
  create_group, join_group, join_count, join_share, joined, leave_group, remove_member,
  delete_group, set_active_group, set_active,
}
use ark_esp_backend.Sharing.View.{is_member, is_member-invites}
use ark_esp_backend.Sharing.Mirror.{get_group_for_member-cases, require_owner-cases}
use ark_esp_backend.Sharing.Mirror.Methods.{get_member_key, join_admit-cases}
use ark_esp_backend.Sharing.Validity.Writes.{
  IsValid-delete_group, IsValid-insert_member, is_member-inserted, IsValid-found_group,
  insert_owner, IsValid-invites,
}
use ark_esp_backend.Sharing.Validity.{IsValid, owner_of, IsValid-set_active, IsValid-expel}

owner_of_found :
    (g : ℕ) (r : SharingGroup) (db : Db)
    → get_group_by_id g db ≡ some r
    → owner_of g db ≡ some r.owner_account_id
unfolding owner_of
owner_of_found g r db e = rw e

is_member_found :
    (g a : ℕ) (m : GroupMember) (db : Db) → get_member g a db ≡ some m → is_member g a db ≡ true
unfolding is_member
is_member_found g a m db e = rw e

not_owner :
    (g a : ℕ) (r : SharingGroup) (db : Db)
    → get_group_by_id g db ≡ some r
    → (r.owner_account_id == a) ≡ false
    → owner_of g db ≢ some a
not_owner g a r db found h o = ground (arith, owner_of_found g r db found)

module _ (s : State) (v : IsValid s.db) (cache : Bool) where
  pub set_active_group-IsValid : (a g : ℕ) → IsValid (set_active_group a g cache s).1.db
  unfolding set_active_group
  set_active_group-IsValid a g = elim (get_group_for_member-cases g a s) [
    | inl e ↦ rw e v
    | inr (r, m, found, member, e) ↦
        rw e (IsValid-set_active a g cache s v (is_member_found g a m s.db member))
  ]

  pub leave_group-IsValid : (g a : ℕ) → IsValid (leave_group g a cache s).1.db
  unfolding leave_group
  leave_group-IsValid g a = elim (get_group_for_member-cases g a s) [
    | inl e ↦ rw e v
    | inr (r, m, found, member, e) ↦ elim (Bool-cases (r.owner_account_id == a)) [
      | inl owner ↦ rw (e, owner) v
      | inr other ↦
          let (eg, ea) = get_member_key g a s.db m member in
          rw (e, other, member)
            (IsValid-expel v m a g eg ea (not_owner g a r s.db found other) cache _)
    ]
  ]

  pub remove_member-IsValid : (g a b : ℕ) → IsValid (remove_member g a b cache s).1.db
  unfolding remove_member
  remove_member-IsValid g a b = elim (require_owner-cases g a s) [
    | inl (_, e) ↦ rw e v
    | inr (r, m, found, member, owner, e) ↦ elim (Bool-cases (b == a)) [
      | inl self ↦ rw (e, self) v
      | inr other ↦ elim (Option-cases (get_member g b s.db)) [
        | inl absent ↦ rw (e, other, absent) v
        | inr (n, target) ↦
            let (eg, eb) = get_member_key g b s.db n target in
            rw (e, other, target)
              (IsValid-expel v n b g eg eb (not_owner g b r s.db found (ground arith)) cache _)
      ]
    ]
  ]

  pub delete_group-IsValid : (g a : ℕ) → IsValid (delete_group g a cache s).1.db
  unfolding delete_group
  delete_group-IsValid g a = elim (require_owner-cases g a s) [
    | inl (_, e) ↦ rw e v
    | inr (r, m, found, member, owner, e) ↦ rw e (IsValid-delete_group r s.db v)
  ]

  pub create_group-IsValid :
      (id now a : ℕ) (name : String) → IsValid (create_group id now a name cache s).1.db
  unfolding create_group
  create_group-IsValid id now a name = elim (Option-cases (Repo.insert_group group s.db)) [
    | inl refused ↦ rw refused v
    | inr (db, e) ↦ elim (Option-cases (Repo.insert_member owner db)) [
      | inl refused ↦ absurd (insert_owner group owner s.db v refl refl db e refl refused)
      | inr (db', e') ↦
          rw (e, e')
            (after-pure (λ t. IsValid t.db) (set_active a id cache) group _
              (IsValid-set_active a id cache _
                (IsValid-found_group group owner s.db v refl refl db db' e e')
                (is_member-inserted owner db db' e')))
    ]
  ]
    where
      group : SharingGroup
      group = record { id = id; name = name; owner_account_id = a; created_at = now }

      owner : GroupMember
      owner = record { group_id = id; account_id = a; role_code = "owner"; joined_at = now }

  pub join_group-IsValid :
      (hash_token : String → String) (now a : ℕ) (token : String)
      → IsValid (join_group hash_token now a token cache s).1.db
  unfolding join_group join_count join_share
  join_group-IsValid hash_token now a token = elim (join_admit-cases hash_token now a token s) [
    | inl (_, e) ↦ rw e v
    | inr (i, db, found, usable, absent, inserted, e) ↦ rw e (
        after-pure (λ t. IsValid t.db) (set_active a i.group_id cache) (joined now a i) _
          (IsValid-set_active a i.group_id cache _
            (IsValid-invites _ (IsValid-insert_member (joined now a i) s.db db inserted v))
            (is_member-invites _ i.group_id a db
              ∙ is_member-inserted (joined now a i) s.db db inserted)))
  ]
