-- ===== src/Sharing/View.antt =====
-- What relay sees of the sharing tables: who is in which group, and where an account shares. One
-- lemma for each write says how it changes these views.
use ark_esp_backend.Prelude.{
  ==_iff, Bool-cases, Option-cases, inl, inr, ℕ, ◌≡◌, refl, Bool, true, false, ◌&&◌, Option, none,
  some, List, [], ◌∷◌, map, arith, ◌==◌, if◌then◌else◌, is_some, equals_some,
}
use ark_esp_backend.Prelude.Table.{
  find, select, update, find-update, find_sound, find-delete_all, find-delete_other,
}
use ark_esp_backend.Models.{Account, SharingGroup, GroupMember, GroupInviteToken, Db, Redis}
use ark_esp_backend.Sharing.Repo
use ark_esp_backend.Sharing.Repo.{
  has_account_id, has_member_key, get_by_id, get_member, list_ids_with_active_group,
}
use ark_esp_backend.Sharing.Cache
use ark_esp_backend.Sharing.Service.{assign_active, clear_all}

unfoldable pub is_member : ℕ → ℕ → Db → Bool
is_member group_id account_id db = is_some (get_member group_id account_id db)

abbrev sharing_into : Option Account → Option ℕ
sharing_into none = none
sharing_into (some r) = r.active_group_id

unfoldable pub active_group : ℕ → Db → Option ℕ
active_group account_id db = sharing_into (get_by_id account_id db)

pub is_member-insert_member :
    (m : GroupMember) (db db' : Db) (g a : ℕ)
    → Repo.insert_member m db ≡ some db'
    → is_member g a db' ≡ (if g == m.group_id && a == m.account_id then true else is_member g a db)
unfolding Repo.insert_member is_member get_member
is_member-insert_member m db db' g a h = ground arith

pub is_member-delete_member :
    (m : GroupMember) (db : Db) (g a : ℕ)
    → is_member g a (Repo.delete_member m db)
      ≡ (if g == m.group_id && a == m.account_id then false else is_member g a db)
unfolding Repo.delete_member is_member get_member
is_member-delete_member m db g a = elim (Bool-cases (g == m.group_id && a == m.account_id)) [
  | inl same ↦ rw same (
      rw (
        find-delete_all (has_member_key g a) (has_member_key m.group_id m.account_id) db.members
          (λ x h. ground arith)))
  | inr other ↦ rw other (
      rw (
        find-delete_other (has_member_key g a) (has_member_key m.group_id m.account_id) db.members
          (λ x h. ground arith)))
]

pub is_member-delete_group :
    (r : SharingGroup) (db : Db) (g a : ℕ)
    → is_member g a (Repo.delete_group r db) ≡ (if g == r.id then false else is_member g a db)
unfolding Repo.delete_group is_member get_member
is_member-delete_group r db g a = elim (Bool-cases (g == r.id)) [
  | inl same ↦ rw same (
      rw (
        find-delete_all (has_member_key g a) (λ x. x.group_id == r.id) db.members
          (λ x h. ground arith)))
  | inr other ↦ rw other (
      rw (
        find-delete_other (has_member_key g a) (λ x. x.group_id == r.id) db.members
          (λ x h. ground arith)))
]

-- the write of `_set_active_group` and of `_clear_active_group_if_matches`
pub active_group-assign :
    (v : Option ℕ) (a b : ℕ) (db : Db)
    → active_group b
        (record db { accounts = update (has_account_id a) (assign_active v) db.accounts })
      ≡ (if b == a && is_some (get_by_id b db) then v else active_group b db)
unfolding active_group get_by_id
active_group-assign v a b db =
    rw (find-update (has_account_id b) (has_account_id a) (assign_active v) db.accounts (λ x. refl))
      (elim (Option-cases (find (has_account_id b) db.accounts)) [
        | inl e ↦ ground arith
        | inr (r, e) ↦ ground (arith, find_sound (has_account_id b) db.accounts r e)
      ])

pub active_group-delete_group :
    (r : SharingGroup) (b : ℕ) (db : Db)
    → active_group b (Repo.delete_group r db)
      ≡ (if equals_some (active_group b db) r.id then none else active_group b db)
unfolding Repo.delete_group active_group get_by_id
active_group-delete_group r b db =
    rw
      (find-update (has_account_id b) (λ x. equals_some x.active_group_id r.id) (assign_active none)
        db.accounts (λ x. refl))
      (ground arith)

-- Other tables do not show in the views.
pub is_member-accounts :
    (accounts : List Account) (g a : ℕ) (db : Db)
    → is_member g a (record db { accounts = accounts }) ≡ is_member g a db
unfolding is_member get_member
is_member-accounts accounts g a db = refl

pub is_member-invites :
    (invites : List GroupInviteToken) (g a : ℕ) (db : Db)
    → is_member g a (record db { invites = invites }) ≡ is_member g a db
unfolding is_member get_member
is_member-invites invites g a db = refl

pub active_group-invites :
    (invites : List GroupInviteToken) (a : ℕ) (db : Db)
    → active_group a (record db { invites = invites }) ≡ active_group a db
unfolding active_group get_by_id
active_group-invites invites a db = refl

pub is_member-insert_group :
    (r : SharingGroup) (db db' : Db) (g a : ℕ)
    → Repo.insert_group r db ≡ some db'
    → is_member g a db' ≡ is_member g a db
unfolding Repo.insert_group is_member get_member
is_member-insert_group r db db' g a h = ground arith

pub active_group-insert_group :
    (r : SharingGroup) (db db' : Db) (a : ℕ)
    → Repo.insert_group r db ≡ some db'
    → active_group a db' ≡ active_group a db
unfolding Repo.insert_group active_group get_by_id
active_group-insert_group r db db' a h = ground arith

pub active_group-insert_member :
    (m : GroupMember) (db db' : Db) (a : ℕ)
    → Repo.insert_member m db ≡ some db'
    → active_group a db' ≡ active_group a db
unfolding Repo.insert_member active_group get_by_id
active_group-insert_member m db db' a h = ground arith

pub active_group-delete_member :
    (m : GroupMember) (a : ℕ) (db : Db)
    → active_group a (Repo.delete_member m db) ≡ active_group a db
unfolding Repo.delete_member active_group get_by_id
active_group-delete_member m a db = refl

-- The primary key of `account`.
abbrev pub HasUniqueIds : List Account → Type 0
HasUniqueIds [] = Unit
HasUniqueIds (r ∷ rs) = (find (has_account_id r.id) rs ≡ none) × HasUniqueIds rs

contains : ℕ → List ℕ → Bool
contains a [] = false
contains a (b ∷ bs) = if a == b then true else contains a bs

active_in : (g b : ℕ) (rs : List Account) → List ℕ
active_in g b rs = map (λ r. r.id) (select (λ r. equals_some r.active_group_id g) rs)

contains-absent :
    (g b : ℕ) (rs : List Account)
    → find (has_account_id b) rs ≡ none
    → contains b (active_in g b rs) ≡ false
unfolding contains active_in
contains-absent g b [] h = refl
contains-absent g b (r ∷ rs) h = ground (arith, contains-absent g b rs)

contains-active_in :
    (g b : ℕ) (rs : List Account)
    → HasUniqueIds rs
    → contains b (active_in g b rs) ≡ equals_some (sharing_into (find (has_account_id b) rs)) g
unfolding contains active_in
contains-active_in g b [] u = refl
contains-active_in g b (r ∷ rs) u = elim (Bool-cases (r.id == b)) [
  | inl same ↦ ground (arith, contains-absent g b rs (rw (← (==_iff r.id b).0 same) u.0))
  | inr other ↦ ground (arith, contains-active_in g b rs u.1)
]

active-clear_all :
    (ids : List ℕ) (b : ℕ) (r : Redis)
    → (clear_all ids r).active b ≡ (if contains b ids then none else r.active b)
unfolding clear_all contains Cache.clear_active_group
active-clear_all [] b r = refl
active-clear_all (a ∷ ids) b r =
    rw (active-clear_all ids b (Cache.clear_active_group a r)) (ground arith)

-- The loop of `delete_group` clears exactly the accounts that share into the group.
pub active-clear_all-list_ids :
    (g b : ℕ) (db : Db) (r : Redis)
    → HasUniqueIds db.accounts
    → (clear_all (list_ids_with_active_group g db) r).active b
      ≡ (if equals_some (active_group b db) g then none else r.active b)
unfolding list_ids_with_active_group active_in active_group get_by_id
active-clear_all-list_ids g b db r u = rw (active-clear_all, contains-active_in g b db.accounts u)

pub member-clear_all : (ids : List ℕ) (r : Redis) → (clear_all ids r).member ≡ r.member
unfolding clear_all Cache.clear_active_group
member-clear_all [] r = refl
member-clear_all (a ∷ ids) r = member-clear_all ids (Cache.clear_active_group a r)
