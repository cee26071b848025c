-- ===== src/Sharing/Service.antt =====
-- backend_python/src/services/sharing_service.py. A method is an action on the database and Redis:
-- a fresh id, a generated token and the current time are arguments, and so is whether a cache was
-- given. `hash_token` is that of core/tokens.py.
use ark_esp_backend.Prelude.{
  ℕ, String, Bool, false, not, ◌+◌, ◌||◌, Option, none, some, List, [], ◌∷◌, map, leb, ◌==◌,
  if◌then◌else◌, is_some, equals_some, Action, Result, pure, or_raise, raise_if, ◌>>=◌, ◌>>◌, ok,
  err,
}
use ark_esp_backend.Prelude.Int.{ℤ, pos, leb_ℤ}
use ark_esp_backend.Prelude.Table.{update}
use ark_esp_backend.Models.{
  Account, SharingGroup, GroupMember, GroupInviteToken, InviteStatus, is_active, Db, Redis, State,
}
use ark_esp_backend.Sharing.Repo
use ark_esp_backend.Sharing.Repo.{
  has_account_id, get_by_id, get_member, get_group_by_id, get_invite_by_token_hash_for_update,
  list_ids_with_active_group,
}
use ark_esp_backend.Sharing.Cache

-- `integrity` is an IntegrityError of the database, `assertion` a failed `assert`.
pub data SharingError : Type 0 where
  not_found forbidden invalid_invite already_member owner_cannot_leave integrity assertion :
      SharingError

abbrev pub Method : Type 0 → Type 0
Method A = Action State SharingError A

-- one committed write
abbrev pub write : (Db → Db) → Method Unit
write f s = (ok tt, record s { db = f s.db })

abbrev settle : State → Option Db → Result SharingError (Unit {0}) × State
settle s none = (err integrity, s)
settle s (some db) = (ok tt, record s { db = db })

abbrev pub try_write : (Db → Option Db) → Method Unit
try_write f s = settle s (f s.db)

-- `if cache is not None`
abbrev pub on_cache : Bool → (Redis → Redis) → Method Unit
on_cache cache f s = (ok tt, record s { redis = if cache then f s.redis else s.redis })

abbrev pub query : {A : Type 0} → (Db → A) → Method A
query f s = (ok (f s.db), s)

abbrev pub require : {A : Type 0} → Option A → SharingError → Method A
require = or_raise

abbrev pub assign_active : Option ℕ → Account → Account
assign_active g r = record r { active_group_id = g }

-- `_set_active_group`
unfoldable pub set_active : ℕ → ℕ → Bool → Method Unit
set_active account_id group_id cache = do
  found ← query (get_by_id account_id)
  require found assertion
  write (λ db. record db {
    accounts = update (has_account_id account_id) (assign_active (some group_id)) db.accounts;
  })
  on_cache cache (Cache.set_active_group account_id group_id)

-- the part of `_clear_active_group_if_matches` after its early return
unfoldable pub clear_active : ℕ → Bool → Method Unit
clear_active account_id cache = do
  write (λ db. record db {
    accounts = update (has_account_id account_id) (assign_active none) db.accounts;
  })
  on_cache cache (Cache.clear_active_group account_id)

-- `_clear_active_group_if_matches`
unfoldable pub clear_active_if_matches : ℕ → ℕ → Bool → Method Unit
clear_active_if_matches account_id group_id cache = do
  found ← query (get_by_id account_id)
  account ← require found assertion
  if equals_some account.active_group_id group_id then clear_active account_id cache else pure tt

unfoldable pub create_group : ℕ → ℕ → ℕ → String → Bool → Method SharingGroup
create_group id now account_id name cache = do
  let group : SharingGroup = record {
    id = id;
    name = name;
    owner_account_id = account_id;
    created_at = now;
  }
  try_write (Repo.insert_group group)
  try_write (
      Repo.insert_member
        (record { group_id = id; account_id = account_id; role_code = "owner"; joined_at = now }))
  on_cache cache (Cache.add_member id account_id)
  set_active account_id id cache
  pure group

unfoldable pub list_my_groups : ℕ → Method (List SharingGroup)
list_my_groups account_id = query (Repo.list_groups_for_account account_id)

-- The group exists and the account is a member; both failures are the same error.
unfoldable pub get_group_for_member : ℕ → ℕ → Method SharingGroup
get_group_for_member group_id account_id = do
  found ← query (get_group_by_id group_id)
  group ← require found not_found
  membership ← query (get_member group_id account_id)
  require membership not_found
  pure group

-- `_require_owner`
unfoldable pub require_owner : ℕ → ℕ → Method SharingGroup
require_owner group_id account_id = do
  group ← get_group_for_member group_id account_id
  raise_if (not (group.owner_account_id == account_id)) forbidden
  pure group

unfoldable pub list_members : ℕ → ℕ → Method (List GroupMember)
list_members group_id account_id = do
  get_group_for_member group_id account_id
  query (Repo.list_members group_id)

-- `GroupInviteCreate` of routers/v1/schemas/sharing.py
pub record GroupInviteCreate : Type 0 where
  pub grants_role_code : String
  pub max_uses : Option ℤ
  pub expires_at : Option ℕ

-- `expires_at is not None and expires_at <= now`
abbrev pub is_past : ℕ → Option ℕ → Bool
is_past now none = false
is_past now (some t) = leb t now

-- `max_uses is not None and uses_count >= max_uses`
abbrev pub used_up : Option ℤ → ℕ → Bool
used_up none uses = false
used_up (some m) uses = leb_ℤ m (pos uses)

-- the test of `join_group` that refuses an invitation
unfoldable pub is_unusable : ℕ → GroupInviteToken → Bool
is_unusable now invite =
    not (is_active invite.status_code)
    || is_past now invite.expires_at
    || used_up invite.max_uses invite.uses_count

-- the write to the invitation in `join_group`
unfoldable pub count_use : GroupInviteToken → GroupInviteToken
count_use invite = record invite {
  uses_count = invite.uses_count + 1;
  status_code =
      if used_up invite.max_uses (invite.uses_count + 1)
      then InviteStatus.expired
      else invite.status_code;
}

-- the row that `join_group` inserts
abbrev pub joined : ℕ → ℕ → GroupInviteToken → GroupMember
joined now account_id invite = record {
  group_id = invite.group_id;
  account_id = account_id;
  role_code = invite.grants_role_code;
  joined_at = now;
}

module _ (hash_token : String → String) where
  unfoldable pub create_invite :
      ℕ → ℕ → String → ℕ → ℕ → GroupInviteCreate → Method (GroupInviteToken × String)
  create_invite id now token group_id account_id spec = do
    require_owner group_id account_id
    let invite : GroupInviteToken = record {
      id = id;
      group_id = group_id;
      token_hash = hash_token token;
      created_by_account_id = account_id;
      grants_role_code = spec.grants_role_code;
      max_uses = spec.max_uses;
      uses_count = 0;
      status_code = InviteStatus.active;
      expires_at = spec.expires_at;
      created_at = now;
    }
    try_write (Repo.insert_invite invite)
    pure (invite, token)

  -- `join_group` up to the commit in `insert_member`, which ends the transaction that locks the row
  unfoldable pub join_admit : ℕ → ℕ → String → Method (GroupInviteToken × GroupMember)
  join_admit now account_id token = do
    found ← query (get_invite_by_token_hash_for_update (hash_token token))
    invite ← require found invalid_invite
    raise_if (is_unusable now invite) invalid_invite
    existing ← query (get_member invite.group_id account_id)
    raise_if (is_some existing) already_member
    let member = joined now account_id invite
    try_write (Repo.insert_member member)
    pure (invite, member)

-- `join_group` from there to its second commit
unfoldable pub join_count : GroupInviteToken → Method Unit
join_count invite =
    write (λ db. record db { invites = update (λ r. r.id == invite.id) count_use db.invites })

-- the rest of `join_group`
unfoldable pub join_share : ℕ → ℕ → Bool → Method Unit
join_share account_id group_id cache = do
  on_cache cache (Cache.add_member group_id account_id)
  set_active account_id group_id cache

unfoldable pub join_group : (String → String) → ℕ → ℕ → String → Bool → Method GroupMember
join_group hash_token now account_id token cache = do
  (invite, member) ← join_admit hash_token now account_id token
  join_count invite
  join_share account_id invite.group_id cache
  pure member

unfoldable pub leave_group : ℕ → ℕ → Bool → Method Unit
leave_group group_id account_id cache = do
  group ← get_group_for_member group_id account_id
  raise_if (group.owner_account_id == account_id) owner_cannot_leave
  found ← query (get_member group_id account_id)
  member ← require found assertion
  write (Repo.delete_member member)
  on_cache cache (Cache.remove_member group_id account_id)
  clear_active_if_matches account_id group_id cache

unfoldable pub remove_member : ℕ → ℕ → ℕ → Bool → Method Unit
remove_member group_id requester_account_id target_account_id cache = do
  require_owner group_id requester_account_id
  raise_if (target_account_id == requester_account_id) forbidden
  found ← query (get_member group_id target_account_id)
  member ← require found not_found
  write (Repo.delete_member member)
  on_cache cache (Cache.remove_member group_id target_account_id)
  clear_active_if_matches target_account_id group_id cache

-- the loop at the end of `delete_group`
unfoldable pub clear_all : List ℕ → Redis → Redis
clear_all [] r = r
clear_all (account_id ∷ rest) r = clear_all rest (Cache.clear_active_group account_id r)

unfoldable pub delete_group : ℕ → ℕ → Bool → Method Unit
delete_group group_id account_id cache = do
  group ← require_owner group_id account_id
  rows ← query (Repo.list_members group_id)
  active_account_ids ← query (list_ids_with_active_group group_id)
  write (Repo.delete_group group)
  on_cache cache (λ r.
      clear_all active_account_ids (Cache.delete_group group_id (map (λ m. m.account_id) rows) r))

unfoldable pub set_active_group : ℕ → ℕ → Bool → Method Unit
set_active_group account_id group_id cache = do
  get_group_for_member group_id account_id
  set_active account_id group_id cache
