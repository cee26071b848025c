-- ===== src/Routes/Groups.antt =====
-- backend_python/src/routers/v1/groups.py with schemas/sharing.py. A handler takes the claims that
-- `get_current_account` gave.
use ark_esp_backend.Prelude.{ℕ, String, Option, some, List, map, true, Action, pure, ◌>>=◌}
use ark_esp_backend.Prelude.Int.{ℤ}
use ark_esp_backend.Models.{SharingGroup, GroupMember, GroupInviteToken, InviteStatus, State}
use ark_esp_backend.Auth.Bearer.{AccountClaims}
use ark_esp_backend.Sharing.Service.{
  SharingError, not_found, forbidden, invalid_invite, already_member, owner_cannot_leave,
  GroupInviteCreate,
}
use ark_esp_backend.Sharing.Service
use ark_esp_backend.Routes.Http.{HttpError, problem, internal, handling}

pub record GroupOut : Type 0 where
  pub id : ℕ
  pub name : String
  pub owner_account_id : ℕ
  pub created_at : ℕ

pub record GroupMemberOut : Type 0 where
  pub account_id : ℕ
  pub role_code : String
  pub joined_at : ℕ

pub record GroupInviteOut : Type 0 where
  pub id : ℕ
  pub token : Option String
  pub group_id : ℕ
  pub grants_role_code : String
  pub max_uses : Option ℤ
  pub uses_count : ℕ
  pub status_code : InviteStatus
  pub expires_at : Option ℕ
  pub created_at : ℕ

abbrev pub group_out : SharingGroup → GroupOut
group_out g = record {
  id = g.id;
  name = g.name;
  owner_account_id = g.owner_account_id;
  created_at = g.created_at;
}

abbrev pub member_out : GroupMember → GroupMemberOut
member_out m = record {
  account_id = m.account_id;
  role_code = m.role_code;
  joined_at = m.joined_at;
}

abbrev pub invite_out : GroupInviteToken × String → GroupInviteOut
invite_out (i, token) = record {
  id = i.id;
  token = some token;
  group_id = i.group_id;
  grants_role_code = i.grants_role_code;
  max_uses = i.max_uses;
  uses_count = i.uses_count;
  status_code = i.status_code;
  expires_at = i.expires_at;
  created_at = i.created_at;
}

abbrev pub group_not_found : HttpError
group_not_found = problem 404 "group_not_found"

abbrev pub not_group_owner : HttpError
not_group_owner = problem 403 "not_group_owner"

-- a route that catches NotFoundError alone
abbrev pub missing_group : SharingError → HttpError
missing_group not_found = group_not_found
missing_group _ = internal

-- a route that catches NotFoundError and ForbiddenError
abbrev pub owner_only : SharingError → HttpError
owner_only not_found = group_not_found
owner_only forbidden = not_group_owner
owner_only _ = internal

abbrev pub member_error : SharingError → HttpError
member_error not_found = problem 404 "member_not_found"
member_error forbidden = not_group_owner
member_error _ = internal

abbrev pub leave_error : SharingError → HttpError
leave_error not_found = group_not_found
leave_error owner_cannot_leave = problem 409 "owner_cannot_leave"
leave_error _ = internal

abbrev pub join_error : SharingError → HttpError
join_error invalid_invite = problem 422 "invalid_invite"
join_error already_member = problem 409 "already_member"
join_error _ = internal

abbrev uncaught : SharingError → HttpError
uncaught e = internal

abbrev pub Route : Type 0 → Type 0
Route A = AccountClaims → Action State HttpError A

unfoldable pub post_group : (id now : ℕ) → String → Route GroupOut
post_group id now name claims = do
  group ← handling uncaught (Service.create_group id now claims.account_id name true)
  pure (group_out group)

unfoldable pub get_groups : Route (List GroupOut)
get_groups claims = do
  groups ← handling uncaught (Service.list_my_groups claims.account_id)
  pure (map group_out groups)

unfoldable pub get_group : ℕ → Route GroupOut
get_group group_id claims = do
  group ← handling missing_group (Service.get_group_for_member group_id claims.account_id)
  pure (group_out group)

unfoldable pub delete_group_by_id : ℕ → Route Unit
delete_group_by_id group_id claims =
    handling owner_only (Service.delete_group group_id claims.account_id true)

unfoldable pub get_group_members : ℕ → Route (List GroupMemberOut)
get_group_members group_id claims = do
  members ← handling missing_group (Service.list_members group_id claims.account_id)
  pure (map member_out members)

unfoldable pub delete_group_member : (group_id account_id : ℕ) → Route Unit
delete_group_member group_id account_id claims =
    handling member_error (Service.remove_member group_id claims.account_id account_id true)

unfoldable pub post_leave_group : ℕ → Route Unit
post_leave_group group_id claims =
    handling leave_error (Service.leave_group group_id claims.account_id true)

module _ (hash_token : String → String) where
  unfoldable pub post_group_invite :
      (id now : ℕ) → String → ℕ → GroupInviteCreate → Route GroupInviteOut
  post_group_invite id now token group_id body claims = do
    made ←
        handling owner_only
          (Service.create_invite hash_token id now token group_id claims.account_id body)
    pure (invite_out made)

  unfoldable pub post_join_group : ℕ → String → Route GroupOut
  post_join_group now token claims = do
    member ← handling join_error (Service.join_group hash_token now claims.account_id token true)
    group ← handling uncaught (Service.get_group_for_member member.group_id claims.account_id)
    pure (group_out group)
