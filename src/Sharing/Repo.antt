-- ===== src/Sharing/Repo.antt =====
-- backend_python/src/repositories/sharing_repo.py and account_repo.py. A write that breaks a
-- primary key, a unique column or a foreign key of the models is `none`: an IntegrityError.
use ark_esp_backend.Prelude.{
  ℕ, String, Bool, not, ◌&&◌, ◌||◌, Option, none, some, List, ◌∷◌, map, leb, ◌==◌, str_eq,
  if◌then◌else◌, is_some, equals_some,
}
use ark_esp_backend.Prelude.Table.{find, select, delete, update, order_by}
use ark_esp_backend.Models.{Account, SharingGroup, GroupMember, GroupInviteToken, is_group_role, Db}

abbrev pub has_account_id : ℕ → Account → Bool
has_account_id account_id r = r.id == account_id

abbrev pub has_group_id : ℕ → SharingGroup → Bool
has_group_id group_id r = r.id == group_id

abbrev pub has_member_key : ℕ → ℕ → GroupMember → Bool
has_member_key group_id account_id r = r.group_id == group_id && r.account_id == account_id

abbrev pub has_token_hash : String → GroupInviteToken → Bool
has_token_hash token_hash r = str_eq r.token_hash token_hash

unfoldable pub get_by_id : ℕ → Db → Option Account
get_by_id account_id db = find (has_account_id account_id) db.accounts

unfoldable pub list_ids_with_active_group : ℕ → Db → List ℕ
list_ids_with_active_group group_id db =
    map (λ r. r.id) (select (λ r. equals_some r.active_group_id group_id) db.accounts)

unfoldable pub get_group_by_id : ℕ → Db → Option SharingGroup
get_group_by_id group_id db = find (has_group_id group_id) db.groups

unfoldable pub insert_group : SharingGroup → Db → Option Db
unfolding get_by_id get_group_by_id
insert_group group db =
    if is_some (get_group_by_id group.id db) || not (is_some (get_by_id group.owner_account_id db))
    then none
    else some (record db { groups = group ∷ db.groups })

unfoldable pub get_member : ℕ → ℕ → Db → Option GroupMember
get_member group_id account_id db = find (has_member_key group_id account_id) db.members

-- the join of `sharing_group` and `group_member`, newest group first
unfoldable pub list_groups_for_account : ℕ → Db → List SharingGroup
unfolding get_member
list_groups_for_account account_id db =
    order_by (λ g h. leb h.created_at g.created_at)
      (select (λ g. is_some (get_member g.id account_id db)) db.groups)

-- The cascade of the relationships takes the members and the invitations, and the foreign key of
-- `account.active_group_id` is ON DELETE SET NULL.
unfoldable pub delete_group : SharingGroup → Db → Db
delete_group group db = record db {
  accounts =
      update (λ r. equals_some r.active_group_id group.id)
        (λ r. record r { active_group_id = none }) db.accounts;
  groups = delete (has_group_id group.id) db.groups;
  members = delete (λ r. r.group_id == group.id) db.members;
  invites = delete (λ r. r.group_id == group.id) db.invites;
}

unfoldable pub insert_member : GroupMember → Db → Option Db
unfolding get_by_id get_group_by_id get_member
insert_member member db =
    if is_some (get_member member.group_id member.account_id db)
      || not (is_some (get_group_by_id member.group_id db))
      || not (is_some (get_by_id member.account_id db))
      || not (is_group_role member.role_code)
    then none
    else some (record db { members = member ∷ db.members })

-- oldest member first
unfoldable pub list_members : ℕ → Db → List GroupMember
list_members group_id db =
    order_by (λ m n. leb m.joined_at n.joined_at) (select (λ r. r.group_id == group_id) db.members)

unfoldable pub delete_member : GroupMember → Db → Db
delete_member member db = record db {
  members = delete (has_member_key member.group_id member.account_id) db.members;
}

unfoldable pub get_invite_by_token_hash_for_update : String → Db → Option GroupInviteToken
get_invite_by_token_hash_for_update token_hash db = find (has_token_hash token_hash) db.invites

unfoldable pub insert_invite : GroupInviteToken → Db → Option Db
unfolding get_by_id get_group_by_id get_invite_by_token_hash_for_update
insert_invite invite db =
    if is_some (find (λ r. r.id == invite.id) db.invites)
      || is_some (get_invite_by_token_hash_for_update invite.token_hash db)
      || not (is_some (get_group_by_id invite.group_id db))
      || not (is_some (get_by_id invite.created_by_account_id db))
      || not (is_group_role invite.grants_role_code)
    then none
    else some (record db { invites = invite ∷ db.invites })
