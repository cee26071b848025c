-- ===== src/Sharing/Validity/Writes.antt =====
-- How the inserts and the deletion of a group act on the invariant of the sharing tables.
use ark_esp_backend.Prelude.{
  ℕ, ◌≡◌, refl, true, false, none, some, arith, ◌==◌, if◌then◌else◌, is_some, Bool-cases, inl, inr,
  ◌≢◌, List,
}
use ark_esp_backend.Prelude.Table.{find-delete_all, find-delete_other}
use ark_esp_backend.Models.{SharingGroup, GroupMember, GroupInviteToken, Db, is_group_role}
use ark_esp_backend.Sharing.Repo
use ark_esp_backend.Sharing.Repo.{get_by_id, get_member, get_group_by_id, has_group_id}
use ark_esp_backend.Sharing.View.{
  is_member, active_group, is_member-delete_group, active_group-delete_group,
  is_member-insert_group, active_group-insert_group, is_member-insert_member,
  active_group-insert_member,
}
use ark_esp_backend.Sharing.Validity.{IsValid, owner_of, has_group, HasUniqueIds-update}

owner_of-insert_group :
    (r : SharingGroup) (db db' : Db) (g : ℕ)
    → Repo.insert_group r db ≡ some db'
    → owner_of g db' ≡ (if g == r.id then some r.owner_account_id else owner_of g db)
unfolding Repo.insert_group owner_of get_group_by_id
owner_of-insert_group r db db' g e = ground arith

has_group-insert_group :
    (r : SharingGroup) (db db' : Db) (g : ℕ)
    → Repo.insert_group r db ≡ some db'
    → has_group g db' ≡ (if g == r.id then true else has_group g db)
unfolding Repo.insert_group has_group get_group_by_id
has_group-insert_group r db db' g e = ground arith

fresh-insert_group :
    (r : SharingGroup) (db db' : Db) → Repo.insert_group r db ≡ some db' → has_group r.id db ≡ false
unfolding Repo.insert_group has_group
fresh-insert_group r db db' e = ground arith

known-insert_group :
    (r : SharingGroup) (db db' : Db)
    → Repo.insert_group r db ≡ some db'
    → is_some (get_by_id r.owner_account_id db') ≡ true
unfolding Repo.insert_group get_by_id
known-insert_group r db db' e = ground arith

group_of-delete_group :
    (r : SharingGroup) (g : ℕ) (db : Db)
    → get_group_by_id g (Repo.delete_group r db)
      ≡ (if g == r.id then none else get_group_by_id g db)
unfolding Repo.delete_group get_group_by_id
group_of-delete_group r g db = elim (Bool-cases (g == r.id)) [
  | inl same ↦
      rw
        (same, find-delete_all (has_group_id g) (has_group_id r.id) db.groups (λ x h. ground arith))
  | inr other ↦ rw (
    other,
    find-delete_other (has_group_id g) (has_group_id r.id) db.groups (λ x h. ground arith),
  )
]

-- A deleted group takes its members with it, and nobody shares into it any more.
pub IsValid-delete_group :
    (r : SharingGroup) (db : Db) → IsValid db → IsValid (Repo.delete_group r db)
IsValid-delete_group r db v = record {
  owner = λ g b e.
      unfold owner_of in
      ground (arith, is_member-delete_group r db g b, group_of-delete_group r g db, v.owner g b);
  active = λ b g e.
      ground
        (arith, is_member-delete_group r db g b, active_group-delete_group r b db, v.active b g);
  grouped = λ g b e.
      unfold has_group in
      ground (arith, is_member-delete_group r db g b, group_of-delete_group r g db, v.grouped g b);
  unique = unfold Repo.delete_group in HasUniqueIds-update _ none db.accounts v.unique;
}

module _ (m : GroupMember) (db db' : Db) (e : Repo.insert_member m db ≡ some db') where
  has_group-insert_member : (g : ℕ) → has_group g db' ≡ has_group g db
  unfolding Repo.insert_member has_group get_group_by_id
  has_group-insert_member g = ground arith

  into_group-insert_member : has_group m.group_id db ≡ true
  unfolding Repo.insert_member has_group get_group_by_id
  into_group-insert_member = ground arith

  owner_of-insert_member : (g : ℕ) → owner_of g db' ≡ owner_of g db
  unfolding Repo.insert_member owner_of get_group_by_id
  owner_of-insert_member g = ground arith

  accounts-insert_member : db'.accounts ≡ db.accounts
  unfolding Repo.insert_member
  accounts-insert_member = ground arith

  pub IsValid-insert_member : IsValid db → IsValid db'
  IsValid-insert_member v = record {
    owner = λ g b o.
        ground
          (arith, is_member-insert_member m db db' g b e, owner_of-insert_member g, v.owner g b);
    active = λ b g o. ground (
      arith,
      is_member-insert_member m db db' g b e,
      active_group-insert_member m db db' b e,
      v.active b g,
    );
    grouped = λ g b o. ground (
      arith,
      is_member-insert_member m db db' g b e,
      has_group-insert_member g,
      into_group-insert_member,
      v.grouped g b,
    );
    unique = rw accounts-insert_member v.unique;
  }

  pub is_member-inserted : is_member m.group_id m.account_id db' ≡ true
  is_member-inserted = ground (arith, is_member-insert_member m db db' m.group_id m.account_id e)

insert_member-accepts :
    (m : GroupMember) (db : Db)
    → is_member m.group_id m.account_id db ≡ false
    → has_group m.group_id db ≡ true
    → is_some (get_by_id m.account_id db) ≡ true
    → is_group_role m.role_code ≡ true
    → Repo.insert_member m db ≢ none
unfolding Repo.insert_member is_member has_group
insert_member-accepts m db absent group account role e = ground arith

-- The first member of a new group goes in, and the tables are valid again.
module _ (r : SharingGroup) (m : GroupMember) (db : Db) (v : IsValid db)
    (own : m.account_id ≡ r.owner_account_id) (into : m.group_id ≡ r.id) where
  accounts-insert_group :
      (db' : Db) → Repo.insert_group r db ≡ some db' → db'.accounts ≡ db.accounts
  unfolding Repo.insert_group
  accounts-insert_group db' e = ground arith

  pub IsValid-found_group :
      (db' db'' : Db)
      → Repo.insert_group r db ≡ some db'
      → Repo.insert_member m db' ≡ some db''
      → IsValid db''
  IsValid-found_group db' db'' e e' = record {
    owner = λ g b o. ground (
      arith,
      is_member-insert_member m db' db'' g b e',
      is_member-insert_group r db db' g b e,
      owner_of-insert_member m db' db'' e' g,
      owner_of-insert_group r db db' g e,
      v.owner g b,
    );
    active = λ b g o. ground (
      arith,
      is_member-insert_member m db' db'' g b e',
      is_member-insert_group r db db' g b e,
      active_group-insert_member m db' db'' b e',
      active_group-insert_group r db db' b e,
      v.active b g,
    );
    grouped = λ g b o. ground (
      arith,
      is_member-insert_member m db' db'' g b e',
      is_member-insert_group r db db' g b e,
      has_group-insert_member m db' db'' e' g,
      has_group-insert_group r db db' g e,
      v.grouped g b,
    );
    unique = rw (accounts-insert_member m db' db'' e') (rw (accounts-insert_group db' e) v.unique);
  }

  -- The insert of the owner cannot be refused.
  pub insert_owner :
      (db' : Db)
      → Repo.insert_group r db ≡ some db'
      → m.role_code ≡ "owner"
      → Repo.insert_member m db' ≢ none
  insert_owner db' e role =
      insert_member-accepts m db'
        (ground (
          arith,
          is_member-insert_group r db db' m.group_id m.account_id e,
          fresh-insert_group r db db' e,
          v.grouped m.group_id m.account_id,
        ))
        (ground (arith, has_group-insert_group r db db' m.group_id e))
        (ground (arith, known-insert_group r db db' e)) (rw role refl)

pub IsValid-invites :
    {db : Db} (invites : List GroupInviteToken)
    → IsValid db
    → IsValid (record db { invites = invites })
unfolding is_member get_member active_group get_by_id owner_of has_group get_group_by_id
IsValid-invites invites v = record {
  owner = v.owner;
  active = v.active;
  grouped = v.grouped;
  unique = v.unique;
}
