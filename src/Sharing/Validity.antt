-- ===== src/Sharing/Validity.antt =====
-- The invariant of the sharing tables: the owner of a group is one of its members, an account
-- shares only into a group that it is a member of, and ids are unique.
pub mod Writes
pub mod Methods
use ark_esp_backend.Prelude.{
  ℕ, ◌≡◌, refl, sym, ◌∙◌, ◌≢◌, inl, inr, Bool, true, false, ◌&&◌, Option, none, some, List, [], ◌∷◌,
  arith, ◌==◌, if◌then◌else◌, is_some, equals_some, Bool-cases, Option-cases, ok, err,
}
use ark_esp_backend.Prelude.Table.{
  find, update, find-update, find_sound, find-delete_all, find-delete_other, change,
}
use ark_esp_backend.Models.{Account, SharingGroup, GroupMember, GroupInviteToken, State, Db, Redis}
use ark_esp_backend.Sharing.Repo
use ark_esp_backend.Sharing.Repo.{get_by_id, get_group_by_id, has_account_id, has_group_id}
use ark_esp_backend.Sharing.Service.{
  on_cache, assign_active, set_active, clear_active, clear_active_if_matches,
}
use ark_esp_backend.Sharing.View.{
  is_member, active_group, HasUniqueIds, is_member-accounts, active_group-assign,
  is_member-insert_member, is_member-delete_member, active_group-insert_member,
  active_group-delete_member,
}

abbrev owned_by : Option SharingGroup → Option ℕ
owned_by none = none
owned_by (some r) = some r.owner_account_id

unfoldable pub owner_of : ℕ → Db → Option ℕ
owner_of g db = owned_by (get_group_by_id g db)

unfoldable pub has_group : ℕ → Db → Bool
has_group g db = is_some (get_group_by_id g db)

pub record IsValid (db : Db) : Type 0 where
  pub owner : (g a : ℕ) → owner_of g db ≡ some a → is_member g a db ≡ true
  pub active : (a g : ℕ) → active_group a db ≡ some g → is_member g a db ≡ true
  pub grouped : (g a : ℕ) → is_member g a db ≡ true → has_group g db ≡ true
  pub unique : HasUniqueIds db.accounts

id-absent :
    (p : Account → Bool) (v : Option ℕ) (id : ℕ) (rs : List Account)
    → find (has_account_id id) rs ≡ none
    → find (has_account_id id) (update p (assign_active v) rs) ≡ none
id-absent p v id rs h = rw (find-update (has_account_id id) p (assign_active v) rs (λ x. refl), h)

pub HasUniqueIds-update :
    (p : Account → Bool) (v : Option ℕ) (rs : List Account)
    → HasUniqueIds rs
    → HasUniqueIds (update p (assign_active v) rs)
HasUniqueIds-update p v [] u = u
HasUniqueIds-update p v (r ∷ rs) u = elim (Bool-cases (p r)) [
  | inl e ↦ rw e (id-absent p v r.id rs u.0, HasUniqueIds-update p v rs u.1)
  | inr e ↦ rw e (id-absent p v r.id rs u.0, HasUniqueIds-update p v rs u.1)
]

-- the write of `_set_active_group`
abbrev assigned : ℕ → Option ℕ → Db → Db
assigned a v db = record db { accounts = update (has_account_id a) (assign_active v) db.accounts }

is_member-assigned :
    (a : ℕ) (v : Option ℕ) (g b : ℕ) (db : Db) → is_member g b (assigned a v db) ≡ is_member g b db
is_member-assigned a v g b db = is_member-accounts _ g b db

module _ {db : Db} (v : IsValid db) (a : ℕ) where
  IsValid-assigned : (g : ℕ) → is_member g a db ≡ true → IsValid (assigned a (some g) db)
  unfolding owner_of has_group get_group_by_id
  IsValid-assigned g m = record {
    owner = λ g' b e. rw is_member-accounts (v.owner g' b e);
    active = λ b g' e.
        rw is_member-accounts (ground (arith, active_group-assign (some g) a b db, v.active b g'));
    grouped = λ g' b e. v.grouped g' b (sym (is_member-assigned a (some g) g' b db) ∙ e);
    unique = HasUniqueIds-update (has_account_id a) (some g) db.accounts v.unique;
  }

-- `_set_active_group` for a member
pub IsValid-set_active :
    (a g : ℕ) (cache : Bool) (s : State)
    → IsValid s.db
    → is_member g a s.db ≡ true
    → IsValid (set_active a g cache s).1.db
unfolding set_active
IsValid-set_active a g cache s v m = elim (Option-cases (get_by_id a s.db)) [
  | inl e ↦ rw e v
  | inr (r, e) ↦ rw e (IsValid-assigned v a g m)
]

module _ {db : Db} (v : IsValid db) (m : GroupMember) (a g : ℕ) (eg : m.group_id ≡ g)
    (ea : m.account_id ≡ a) (other : owner_of g db ≢ some a) where
  owned_still :
      (g' b : ℕ) → owner_of g' db ≡ some b → is_member g' b (Repo.delete_member m db) ≡ true
  owned_still g' b e = rw is_member-delete_member (ground (arith, v.owner g' b e))

  IsValid-deleted : active_group a db ≢ some g → IsValid (Repo.delete_member m db)
  unfolding owner_of has_group get_group_by_id Repo.delete_member
  IsValid-deleted elsewhere = record {
    owner = owned_still;
    active = λ b g' e. ground (
      arith,
      is_member-delete_member m db g' b,
      active_group-delete_member m b db,
      v.active b g',
    );
    grouped = λ g' b e. ground (arith, is_member-delete_member m db g' b, v.grouped g' b);
    unique = v.unique;
  }

  IsValid-expelled :
      is_some (get_by_id a db) ≡ true → IsValid (assigned a none (Repo.delete_member m db))
  unfolding owner_of has_group get_group_by_id Repo.delete_member get_by_id
  IsValid-expelled known = record {
    owner = λ g' b e. is_member-assigned a none g' b (Repo.delete_member m db) ∙ owned_still g' b e;
    active = λ b g' e.
        is_member-assigned a none g' b (Repo.delete_member m db)
        ∙ (ground (
          arith,
          is_member-delete_member m db g' b,
          active_group-delete_member m b db,
          active_group-assign none a b (Repo.delete_member m db),
          v.active b g',
        ));
    grouped = λ g' b e. ground (
      arith,
      is_member-assigned a none g' b (Repo.delete_member m db),
      is_member-delete_member m db g' b,
      v.grouped g' b,
    );
    unique = HasUniqueIds-update (has_account_id a) none db.accounts v.unique;
  }

  -- The member row of an account that is not the owner deleted, and its active group cleared.
  pub IsValid-expel :
      (cache : Bool) (redis : Redis)
      → IsValid
          (clear_active_if_matches a g cache
            (record { db = Repo.delete_member m db; redis = redis })).1.db
  unfolding clear_active_if_matches clear_active Repo.delete_member get_by_id active_group
  IsValid-expel cache redis = elim (Option-cases (find (has_account_id a) db.accounts)) [
    | inl e ↦ rw e (IsValid-deleted (ground arith))
    | inr (r, e) ↦ elim (Bool-cases (equals_some r.active_group_id g)) [
      | inl same ↦ rw (e, same) (IsValid-expelled (ground arith))
      | inr different ↦ rw (e, different) (IsValid-deleted (ground arith))
    ]
  ]
