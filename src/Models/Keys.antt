-- ===== src/Models/Keys.antt =====
-- backend_python/src/models: activation_key.py, api_key.py, account_password_reset_token.py.
use ark_esp_backend.Prelude.{ℕ, String, Option, List}
use ark_esp_backend.Prelude.Int.{ℤ}

pub data ActivationKeyStatus : Type 0 where
  issued redeemed : ActivationKeyStatus

pub record ActivationKey : Type 0 where
  pub id : ℕ
  pub token_hash : String
  pub duration : ℤ
  pub origin_code : String
  pub status_code : ActivationKeyStatus
  pub redeemed_at : Option ℕ
  pub redeemed_by_account_id : Option ℕ
  pub tg_user_id : Option ℤ
  pub created_at : ℕ

pub data ApiKeyStatus : Type 0 where
  active revoked : ApiKeyStatus

-- `scopes` are the rows of `api_key_scope` that belong to the key, in order.
pub record ApiKey : Type 0 where
  pub id : ℕ
  pub account_id : ℕ
  pub key_hash : String
  pub prefix : String
  pub last4 : String
  pub status_code : ApiKeyStatus
  pub expires_at : Option ℕ
  pub last_used_at : Option ℕ
  pub created_at : ℕ
  pub scopes : List String

pub record AccountPasswordResetToken : Type 0 where
  pub id : ℕ
  pub account_id : ℕ
  pub token_hash : String
  pub created_by_admin_id : ℕ
  pub expires_at : ℕ
  pub used_at : Option ℕ
  pub created_at : ℕ
