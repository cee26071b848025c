-- ===== src/Models/Sharing.antt =====
-- backend_python/src/models/sharing.py: a sharing group, its members and its invitations.
use ark_esp_backend.Prelude.{ℕ, String, Option, Bool, true, false, ◌||◌, str_eq}
use ark_esp_backend.Prelude.Int.{ℤ}

pub data InviteStatus : Type 0 where
  active revoked expired : InviteStatus

abbrev pub is_active : InviteStatus → Bool
is_active InviteStatus.active = true
is_active _ = false

pub record SharingGroup : Type 0 where
  pub id : ℕ
  pub name : String
  pub owner_account_id : ℕ
  pub created_at : ℕ

pub record GroupMember : Type 0 where
  pub group_id : ℕ
  pub account_id : ℕ
  pub role_code : String
  pub joined_at : ℕ

-- `max_uses` has no lower bound in the schema, so it may be zero or negative.
pub record GroupInviteToken : Type 0 where
  pub id : ℕ
  pub group_id : ℕ
  pub token_hash : String
  pub created_by_account_id : ℕ
  pub grants_role_code : String
  pub max_uses : Option ℤ
  pub uses_count : ℕ
  pub status_code : InviteStatus
  pub expires_at : Option ℕ
  pub created_at : ℕ

-- the codes of `group_role`, to which the role columns refer
abbrev pub is_group_role : String → Bool
is_group_role code = str_eq code "owner" || str_eq code "member"
