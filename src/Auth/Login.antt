-- ===== src/Auth/Login.antt =====
-- `authenticate_account` and `authenticate_admin`. The time is an argument, in microseconds.
use ark_esp_backend.Prelude.{
  ℕ, String, ◌+◌, ◌*◌, Bool, true, false, not, ◌&&◌, Option, none, some, ltb, leb, ◌==◌, str_eq,
  if◌then◌else◌, is_some, Action, ok, err, or_raise, raise, gets, modify, raise_if, pure, ◌>>=◌,
  ◌>>◌,
}
use ark_esp_backend.Prelude.Table.{find, update}
use ark_esp_backend.Models.{AccountStatus, Account, AdminStatus, Admin, Db}
use ark_esp_backend.Secrets.{Hashing, verify_password}

-- `InvalidCredentialsError` and `AccountLockedError`
pub data LoginError : Type 0 where
  invalid_credentials : LoginError
  account_locked : ℕ → LoginError

abbrev pub failed_attempts_lockout_threshold : ℕ
failed_attempts_lockout_threshold = 5

-- 15 minutes
abbrev pub lockout_duration : ℕ
lockout_duration = 15 * 60 * 1_000_000

abbrev pub is_active_account : AccountStatus → Bool
is_active_account AccountStatus.active = true
is_active_account AccountStatus.suspended = false

abbrev pub is_active_admin : AdminStatus → Bool
is_active_admin AdminStatus.active = true
is_active_admin _ = false

-- `Account.login == login, Account.deleted_at.is_(None)`
abbrev pub has_login : String → Account → Bool
has_login login r = str_eq r.login login && not (is_some r.deleted_at)

abbrev pub has_username : String → Admin → Bool
has_username username r = str_eq r.username username

-- `locked_until is not None and locked_until > now`
abbrev pub refuse_locked : {S : Type 0} → Option ℕ → ℕ → Action S LoginError (Unit {0})
refuse_locked none now s = (ok tt, s)
refuse_locked (some t) now s = if ltb now t then (err (account_locked t), s) else (ok tt, s)

-- the row after a wrong password
unfoldable pub note_failure : ℕ → Account → Account
note_failure now r = record r {
  failed_attempts = r.failed_attempts + 1;
  locked_until =
      if leb failed_attempts_lockout_threshold (r.failed_attempts + 1)
      then some (now + lockout_duration)
      else r.locked_until;
}

-- the row after the right one
unfoldable pub note_success : ℕ → Account → Account
note_success now r = record r { failed_attempts = 0; locked_until = none; last_login_at = some now }

unfoldable pub note_admin_failure : ℕ → Admin → Admin
note_admin_failure now r = record r {
  failed_attempts = r.failed_attempts + 1;
  locked_until =
      if leb failed_attempts_lockout_threshold (r.failed_attempts + 1)
      then some (now + lockout_duration)
      else r.locked_until;
}

unfoldable pub note_admin_success : ℕ → Admin → Admin
note_admin_success now r = record r {
  failed_attempts = 0;
  locked_until = none;
  last_login_at = some now;
}

abbrev pub put_accounts : (Account → Bool) → (Account → Account) → Db → Db
put_accounts p f db = record db { accounts = update p f db.accounts }

abbrev pub put_admins : (Admin → Bool) → (Admin → Admin) → Db → Db
put_admins p f db = record db { admins = update p f db.admins }

-- the end of `authenticate_account`, once the password was checked
abbrev conclude_account : Bool → ℕ → Account → Action Db LoginError Account
conclude_account true now r = do
  modify (put_accounts (λ x. x.id == r.id) (note_success now))
  pure (note_success now r)
conclude_account false now r = do
  modify (put_accounts (λ x. x.id == r.id) (note_failure now))
  raise invalid_credentials

-- the end of `authenticate_admin`, once the password was checked
abbrev conclude_admin : Bool → ℕ → Admin → Action Db LoginError Admin
conclude_admin true now r = do
  modify (put_admins (λ x. x.id == r.id) (note_admin_success now))
  pure (note_admin_success now r)
conclude_admin false now r = do
  modify (put_admins (λ x. x.id == r.id) (note_admin_failure now))
  raise invalid_credentials

module _ (h : Hashing) where
  unfoldable pub authenticate_account : String → String → ℕ → Action Db LoginError Account
  authenticate_account login password now = do
    found ← gets (λ db. find (has_login login) db.accounts)
    account ← or_raise found invalid_credentials
    refuse_locked account.locked_until now
    raise_if (not (is_active_account account.status_code)) invalid_credentials
    conclude_account (verify_password h password account.password_hash) now account

  unfoldable pub authenticate_admin : String → String → ℕ → Action Db LoginError Admin
  authenticate_admin username password now = do
    found ← gets (λ db. find (has_username username) db.admins)
    admin ← or_raise found invalid_credentials
    refuse_locked admin.locked_until now
    raise_if (not (is_active_admin admin.status_code)) invalid_credentials
    conclude_admin (verify_password h password admin.password_hash) now admin
