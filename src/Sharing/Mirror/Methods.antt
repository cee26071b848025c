-- ===== src/Sharing/Mirror/Methods.antt =====
-- Each method of the sharing service, given the cache, keeps the mirror exact.
use ark_esp_backend.Prelude.{
  ℕ, String, ◌≡◌, inl, inr, true, false, none, some, arith, ◌==◌, Bool-cases, Option-cases, ok, err,
  after-pure, ◌⊎◌,
}
use ark_esp_backend.Prelude.Table.{find_sound}
use ark_esp_backend.Models.{SharingGroup, GroupMember, GroupInviteToken, State, Db}
use ark_esp_backend.Sharing.Repo
use ark_esp_backend.Sharing.Repo.{
  get_member, has_member_key, get_group_by_id, has_group_id, list_ids_with_active_group,
  get_invite_by_token_hash_for_update,
}
use ark_esp_backend.Sharing.Cache
use ark_esp_backend.Sharing.Service.{
  set_active, joined, SharingError, invalid_invite, already_member, integrity, create_group,
  join_group, join_admit, join_count, join_share, leave_group, remove_member, delete_group,
  set_active_group, is_unusable,
}
use ark_esp_backend.Sharing.View.{
  HasUniqueIds, is_member-delete_group, active_group-delete_group, active-clear_all-list_ids,
  member-clear_all, is_member-insert_group, active_group-insert_group, is_member-invites,
  active_group-invites,
}
use ark_esp_backend.Sharing.Mirror.{
  Mirrors, get_group_for_member-cases, require_owner-cases, Mirrors-set_active,
  Mirrors-clear_active_if_matches, Mirrors-delete_member, Mirrors-insert_member,
}

-- The row that `get_member` returns has the key that was asked for.
pub get_member_key :
    (g a : ℕ) (db : Db) (m : GroupMember)
    → get_member g a db ≡ some m
    → (m.group_id ≡ g) × (m.account_id ≡ a)
unfolding get_member
get_member_key g a db m e = ground (arith, find_sound (has_member_key g a) db.members m e)

pub get_group_key : (g : ℕ) (db : Db) (r : SharingGroup) → get_group_by_id g db ≡ some r → r.id ≡ g
unfolding get_group_by_id
get_group_key g db r e = ground (arith, find_sound (has_group_id g) db.groups r e)

module _ {s : State} (h : Mirrors s) where
  pub set_active_group-Mirrors : (a g : ℕ) → Mirrors (set_active_group a g true s).1
  unfolding set_active_group
  set_active_group-Mirrors a g = elim (get_group_for_member-cases g a s) [
    | inl e ↦ rw e h
    | inr (r, m, found, member, e) ↦ rw e (Mirrors-set_active h a g)
  ]

  pub leave_group-Mirrors : (g a : ℕ) → Mirrors (leave_group g a true s).1
  unfolding leave_group
  leave_group-Mirrors g a = elim (get_group_for_member-cases g a s) [
    | inl e ↦ rw e h
    | inr (r, m, found, member, e) ↦ elim (Bool-cases (r.owner_account_id == a)) [
      | inl owner ↦ rw (e, owner) h
      | inr other ↦
          let (eg, ea) = get_member_key g a s.db m member in
          rw (e, other, member)
            (Mirrors-clear_active_if_matches (Mirrors-delete_member h m g a eg ea) a g)
    ]
  ]

  pub remove_member-Mirrors : (g a b : ℕ) → Mirrors (remove_member g a b true s).1
  unfolding remove_member
  remove_member-Mirrors g a b = elim (require_owner-cases g a s) [
    | inl (_, e) ↦ rw e h
    | inr (r, m, found, member, owner, e) ↦ elim (Bool-cases (b == a)) [
      | inl self ↦ rw (e, self) h
      | inr other ↦ elim (Option-cases (get_member g b s.db)) [
        | inl absent ↦ rw (e, other, absent) h
        | inr (n, target) ↦
            let (eg, eb) = get_member_key g b s.db n target in
            rw (e, other, target)
              (Mirrors-clear_active_if_matches (Mirrors-delete_member h n g b eg eb) b g)
      ]
    ]
  ]

  pub delete_group-Mirrors :
      (g a : ℕ) → HasUniqueIds s.db.accounts → Mirrors (delete_group g a true s).1
  unfolding delete_group Cache.delete_group
  delete_group-Mirrors g a unique = elim (require_owner-cases g a s) [
    | inl (_, e) ↦ rw e h
    | inr (r, m, found, member, owner, e) ↦
        let key = get_group_key g s.db r found in
        rw e (record {
          member =
              λ g' b. rw (member-clear_all, is_member-delete_group) (ground (arith, h.member g' b));
          active = λ b.
              rw (active-clear_all-list_ids g b s.db _ unique, active_group-delete_group)
                (ground (arith, h.active b));
        })
  ]

  pub create_group-Mirrors :
      (id now a : ℕ) (name : String) → Mirrors (create_group id now a name true s).1
  unfolding create_group
  create_group-Mirrors id now a name = elim (Option-cases (Repo.insert_group group s.db)) [
    | inl refused ↦ rw refused h
    | inr (db, e) ↦ elim (Option-cases (Repo.insert_member owner db)) [
      | inl refused ↦ rw (e, refused) (with_group db e)
      | inr (db', e') ↦
          rw (e, e')
            (after-pure Mirrors (set_active a id true) group _
              (Mirrors-set_active (Mirrors-insert_member (with_group db e) owner db' e') a id))
    ]
  ]
    where
      group : SharingGroup
      group = record { id = id; name = name; owner_account_id = a; created_at = now }

      owner : GroupMember
      owner = record { group_id = id; account_id = a; role_code = "owner"; joined_at = now }

      with_group :
          (db : Db)
          → Repo.insert_group group s.db ≡ some db
          → Mirrors (record { db = db; redis = s.redis })
      with_group db e = record {
        member = λ g b. rw (is_member-insert_group group s.db db g b e) (h.member g b);
        active = λ b. rw (active_group-insert_group group s.db db b e) (h.active b);
      }

-- How `join_admit` ends: refused with nothing written, or with a new member of the group.
pub join_admit-cases :
    (hash_token : String → String) (now a : ℕ) (token : String) (s : State)
    → ((e : SharingError) × (join_admit hash_token now a token s ≡ (err e, s)))
      ⊎ ((i : GroupInviteToken) × (db : Db) × (get_invite_by_token_hash_for_update
              (hash_token token)
              s.db
            ≡ some i)
          × (is_unusable now i ≡ false)
          × (get_member i.group_id a s.db ≡ none)
          × (Repo.insert_member (joined now a i) s.db ≡ some db)
          × (join_admit hash_token now a token s
              ≡ (ok (i, joined now a i), record { db = db; redis = s.redis })))
unfolding join_admit
join_admit-cases hash_token now a token s =
    elim (Option-cases (get_invite_by_token_hash_for_update (hash_token token) s.db)) [
      | inl absent ↦ inl (invalid_invite, rw absent)
      | inr (i, found) ↦ elim (Bool-cases (is_unusable now i)) [
        | inl unusable ↦ inl (invalid_invite, rw (found, unusable))
        | inr usable ↦ elim (Option-cases (get_member i.group_id a s.db)) [
          | inr (m, member) ↦ inl (already_member, rw (found, usable, member))
          | inl absent ↦ elim (Option-cases (Repo.insert_member (joined now a i) s.db)) [
            | inl refused ↦ inl (integrity, rw (found, usable, absent, refused))
            | inr (db, e) ↦ inr (i, db, found, usable, absent, e, rw (found, usable, absent, e))
          ]
        ]
      ]
    ]

module _ {s : State} (h : Mirrors s) where
  pub join_group-Mirrors :
      (hash_token : String → String) (now a : ℕ) (token : String)
      → Mirrors (join_group hash_token now a token true s).1
  unfolding join_group join_count join_share Cache.add_member
  join_group-Mirrors hash_token now a token = elim (join_admit-cases hash_token now a token s) [
    | inl (_, e) ↦ rw e h
    | inr (i, db, found, usable, absent, inserted, e) ↦
        let k = Mirrors-insert_member h (joined now a i) db inserted in
        rw e (
          after-pure Mirrors (set_active a i.group_id true) (joined now a i) _ (
            Mirrors-set_active
              (record {
                member = λ g b. rw is_member-invites (unfold Cache.add_member in k.member g b);
                active = λ b. rw active_group-invites (k.active b);
              })
              a i.group_id))
  ]
