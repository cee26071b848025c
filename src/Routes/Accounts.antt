-- ===== src/Routes/Accounts.antt =====
-- backend_python/src/routers/v1/accounts.py and admin_accounts.py, with schemas/account.py and
-- schemas/password_reset.py.
use ark_esp_backend.Prelude.{
  ℕ, String, Option, some, List, map, true, Action, pure, gets, or_raise, ◌>>=◌, ◌>>◌,
}
use ark_esp_backend.Prelude.Int.{ℤ}
use ark_esp_backend.Models.{Account, AccountStatus, State}
use ark_esp_backend.Secrets.{Hashing}
use ark_esp_backend.Auth.Bearer.{AdminClaims}
use ark_esp_backend.Accounts.Repo.{get_account}
use ark_esp_backend.Accounts.Register.{
  AccountError, invalid_activation_key, conflict, invalid_old_password,
}
use ark_esp_backend.Accounts.Register
use ark_esp_backend.Accounts.Reset.{ResetError, account_not_found, invalid_reset_token}
use ark_esp_backend.Accounts.Reset
use ark_esp_backend.Sharing.Service
use ark_esp_backend.Routes.Http.{HttpError, problem, internal, handling, on_db}
use ark_esp_backend.Routes.Groups.{GroupOut, group_out, missing_group, Route}

pub record AccountOut : Type 0 where
  pub id : ℕ
  pub login : String
  pub expires_at : Option ℤ
  pub status_code : AccountStatus
  pub created_at : ℕ

pub record AccountMeOut : Type 0 where
  pub id : ℕ
  pub groups : List GroupOut
  pub active_group_id : Option ℕ

pub record PasswordResetIssueOut : Type 0 where
  pub token : String
  pub account_id : ℕ
  pub expires_at : ℕ

abbrev pub account_out : Account → AccountOut
account_out r = record {
  id = r.id;
  login = r.login;
  expires_at = r.expires_at;
  status_code = r.status_code;
  created_at = r.created_at;
}

abbrev pub register_error : AccountError → HttpError
register_error invalid_activation_key = problem 422 "invalid_activation_key"
register_error conflict = problem 409 "login_taken"
register_error invalid_old_password = internal

abbrev pub password_error : AccountError → HttpError
password_error invalid_old_password = problem 401 "invalid_old_password"
password_error _ = internal

abbrev pub reset_error : ResetError → HttpError
reset_error invalid_reset_token = problem 422 "invalid_reset_token"
reset_error _ = internal

abbrev pub issue_error : ResetError → HttpError
issue_error account_not_found = problem 404 "account_not_found"
issue_error _ = internal

abbrev list_groups : ℕ → Action State HttpError (List GroupOut)
list_groups account_id = do
  groups ← handling (λ e. internal) (Service.list_my_groups account_id)
  pure (map group_out groups)

unfoldable pub get_me : Route AccountMeOut
get_me claims = do
  groups ← list_groups claims.account_id
  found ← gets (λ s. get_account claims.account_id s.db)
  account ← or_raise found internal
  pure (record {
    id = claims.account_id;
    groups = groups;
    active_group_id = account.active_group_id;
  })

unfoldable pub post_active_group : ℕ → Route AccountMeOut
post_active_group group_id claims = do
  handling missing_group (Service.set_active_group claims.account_id group_id true)
  groups ← list_groups claims.account_id
  pure (record { id = claims.account_id; groups = groups; active_group_id = some group_id })

module _ (h : Hashing) where
  unfoldable pub post_register :
      (id now : ℕ)
      → (salt login password activation_key : String) → Action State HttpError AccountOut
  post_register id now salt login password activation_key = do
    account ←
        handling register_error
          (on_db (Register.register_account h id now salt login password activation_key))
    pure (account_out account)

  unfoldable pub post_change_password : (salt old_password new_password : String) → Route AccountOut
  post_change_password salt old_password new_password claims = do
    account ←
        handling password_error
          (on_db (Register.change_password h claims.account_id salt old_password new_password))
    pure (account_out account)

  unfoldable pub post_password_reset_confirm :
      ℕ → (salt token new_password : String) → Action State HttpError Unit
  post_password_reset_confirm now salt token new_password = do
    handling reset_error (on_db (Reset.confirm_reset h now salt token new_password))
    pure tt

  unfoldable pub post_password_reset_token :
      (id now : ℕ) → String → ℕ → AdminClaims → Action State HttpError PasswordResetIssueOut
  post_password_reset_token id now token account_id claims = do
    issued ←
        handling issue_error
          (on_db (Reset.issue_reset_token h id now token account_id claims.admin_id))
    pure (record {
      token = issued.1;
      account_id = issued.0.account_id;
      expires_at = issued.0.expires_at;
    })
