-- ===== src/Models/Admins.antt =====
-- backend_python/src/models/admin.py.
use ark_esp_backend.Prelude.{ℕ, String, Option}

pub data AdminStatus : Type 0 where
  active disabled locked : AdminStatus

pub record Admin : Type 0 where
  pub id : ℕ
  pub username : String
  pub display_name : Option String
  pub password_hash : String
  pub role_code : String
  pub status_code : AdminStatus
  pub failed_attempts : ℕ
  pub locked_until : Option ℕ
  pub password_changed_at : Option ℕ
  pub last_login_at : Option ℕ
  pub created_at : ℕ
  pub created_by_admin_id : Option ℕ
