-- ===== src/Models/Accounts.antt =====
-- backend_python/src/models/account.py and the seeded codes of models/auth_lookups.py.
use ark_esp_backend.Prelude.{ℕ, String, Option}
use ark_esp_backend.Prelude.Int.{ℤ}

pub data AccountStatus : Type 0 where
  active suspended : AccountStatus

-- `expires_at` is only stored; the sum that it comes from may lie before the epoch.
pub record Account : Type 0 where
  pub id : ℕ
  pub login : String
  pub password_hash : String
  pub expires_at : Option ℤ
  pub status_code : AccountStatus
  pub deleted_at : Option ℕ
  pub created_at : ℕ
  pub last_login_at : Option ℕ
  pub failed_attempts : ℕ
  pub locked_until : Option ℕ
  pub active_group_id : Option ℕ
