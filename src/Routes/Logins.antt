-- ===== src/Routes/Logins.antt =====
-- backend_python/src/routers/v1/account_auth.py and admin_auth.py, and the tokens that
-- core/account_auth.py and core/admin_auth.py make. `encode` is `jwt.encode`, `lifetime` the setting
-- JWT_LIFETIME in seconds, `show` the text of an id. The details of a 423 are left out.
use ark_esp_backend.Prelude.{ℕ, String, ◌+◌, ◌*◌, Action, pure, ◌>>=◌}
use ark_esp_backend.Models.{Account, Admin, State}
use ark_esp_backend.Secrets.{Hashing}
use ark_esp_backend.Auth.Login.{
  LoginError, invalid_credentials, account_locked, authenticate_account, authenticate_admin,
}
use ark_esp_backend.Routes.Http.{HttpError, problem, handling, on_db}

pub record AccountPayload : Type 0 where
  pub sub : String
  pub typ : String
  pub login : String
  pub account_id : String
  pub iat : ℕ
  pub exp : ℕ

pub record AdminPayload : Type 0 where
  pub sub : String
  pub typ : String
  pub username : String
  pub role : String
  pub iat : ℕ
  pub exp : ℕ

-- the signing of a token, with its key
pub record Signing : Type 0 where
  pub encode_account : AccountPayload → String
  pub encode_admin : AdminPayload → String
  pub show : ℕ → String
  pub lifetime : ℕ

pub record LoginResponse : Type 0 where
  pub access_token : String
  pub expires_in : ℕ

abbrev pub login_error : LoginError → HttpError
login_error invalid_credentials = problem 401 "invalid_credentials"
login_error (account_locked t) = problem 423 "account_locked"

module _ (g : Signing) where
  abbrev pub account_payload : ℕ → Account → AccountPayload
  account_payload now account = record {
    sub = g.show account.id;
    typ = "account";
    login = account.login;
    account_id = g.show account.id;
    iat = now;
    exp = now + g.lifetime * 1_000_000;
  }

  abbrev pub create_account_token : ℕ → Account → String
  create_account_token now account = g.encode_account (account_payload now account)

  abbrev pub admin_payload : ℕ → Admin → AdminPayload
  admin_payload now admin = record {
    sub = g.show admin.id;
    typ = "admin";
    username = admin.username;
    role = admin.role_code;
    iat = now;
    exp = now + g.lifetime * 1_000_000;
  }

  abbrev pub create_admin_token : ℕ → Admin → String
  create_admin_token now admin = g.encode_admin (admin_payload now admin)

  module _ (h : Hashing) where
    unfoldable pub login_account :
        (login password : String) → ℕ → Action State HttpError LoginResponse
    login_account login password now = do
      account ← handling login_error (on_db (authenticate_account h login password now))
      pure (record { access_token = create_account_token now account; expires_in = g.lifetime })

    unfoldable pub login_admin :
        (username password : String) → ℕ → Action State HttpError LoginResponse
    login_admin username password now = do
      admin ← handling login_error (on_db (authenticate_admin h username password now))
      pure (record { access_token = create_admin_token now admin; expires_in = g.lifetime })
