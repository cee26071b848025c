-- ===== src/Auth/Bearer.antt =====
-- Who a request comes from: `get_current_account` with its fallback to an API key, and
-- `get_current_admin`. Decoding a JWT (PyJWT, the keys included) and reading a UUID are parameters.
use ark_esp_backend.Prelude.{
  ℕ, String, Bool, true, false, not, ◌&&◌, Option, none, some, leb, ◌==◌, str_eq, is_some, Action,
  or_raise, gets, modify, raise_if, pure, ◌>>=◌, ◌>>◌, if◌then◌else◌,
}
use ark_esp_backend.Prelude.Table.{find, update}
use ark_esp_backend.Models.{Account, ApiKey, ApiKeyStatus, Db}
use ark_esp_backend.Secrets.{Hashing, hash_token}
use ark_esp_backend.Auth.Login.{is_active_account, is_active_admin}

-- the claims that are read: `none` where the token has none
pub record Payload : Type 0 where
  pub typ : Option String
  pub sub : Option String

-- `decode_account` verifies RS256, `decode_admin` HS256; `none` is a PyJWTError. `uuid` is
-- `uuid.UUID`, where `none` is a ValueError.
pub record Tokens : Type 0 where
  pub decode_account : String → Option Payload
  pub decode_admin : String → Option Payload
  pub uuid : String → Option ℕ

pub data Unauthorized : Type 0 where
  unauthorized : Unauthorized

pub record AccountClaims : Type 0 where
  pub account_id : ℕ
  pub login : String

pub record AdminClaims : Type 0 where
  pub admin_id : ℕ
  pub username : String
  pub role_code : String

abbrev pub is_active_key : ApiKeyStatus → Bool
is_active_key ApiKeyStatus.active = true
is_active_key ApiKeyStatus.revoked = false

-- `api_key_repo.get_active_by_hash`
unfoldable pub get_active_by_hash : String → Db → Option ApiKey
get_active_by_hash key_hash db =
    find (λ r. str_eq r.key_hash key_hash && is_active_key r.status_code) db.api_keys

-- `expires_at is not None and expires_at <= now`
abbrev pub is_past : ℕ → Option ℕ → Bool
is_past now none = false
is_past now (some t) = leb t now

-- `account is None or account.deleted_at is not None or account.status_code != "active"`
abbrev pub is_usable : Account → Bool
is_usable r = not (is_some r.deleted_at) && is_active_account r.status_code

abbrev if_usable : Option Account → Option Account
if_usable none = none
if_usable (some r) = if is_usable r then some r else none

-- `session.get(Account, account_id)`, kept if the account may act
unfoldable pub active_account : ℕ → Db → Option Account
active_account account_id db = if_usable (find (λ r. r.id == account_id) db.accounts)

-- `typ` is "account"
abbrev pub says : String → Option String → Bool
says typ none = false
says typ (some s) = str_eq s typ

abbrev pub claims_of : Account → AccountClaims
claims_of r = record { account_id = r.id; login = r.login }

-- `uuid.UUID(payload["sub"])`, with its KeyError and ValueError
abbrev pub subject : (String → Option ℕ) → Option String → Option ℕ
subject uuid none = none
subject uuid (some s) = uuid s

module _ (h : Hashing) where
  -- `_account_claims_from_api_key`
  unfoldable pub account_claims_from_api_key : String → ℕ → Action Db Unauthorized AccountClaims
  account_claims_from_api_key token now = do
    found ← gets (get_active_by_hash (hash_token h token))
    key ← or_raise found unauthorized
    raise_if (is_past now key.expires_at) unauthorized
    owner ← gets (active_account key.account_id)
    account ← or_raise owner unauthorized
    modify (λ db. record db {
      api_keys =
          update (λ r. r.id == key.id) (λ r. record r { last_used_at = some now }) db.api_keys;
    })
    pure (claims_of account)

  module _ (t : Tokens) where
    -- the JWT's half of `get_current_account`
    unfoldable pub account_claims_from_payload : Payload → Action Db Unauthorized AccountClaims
    account_claims_from_payload payload = do
      raise_if (not (says "account" payload.typ)) unauthorized
      account_id ← or_raise (subject t.uuid payload.sub) unauthorized
      found ← gets (active_account account_id)
      account ← or_raise found unauthorized
      pure (claims_of account)

    abbrev claims_from : String → ℕ → Option Payload → Action Db Unauthorized AccountClaims
    claims_from token now none = account_claims_from_api_key token now
    claims_from token now (some payload) = account_claims_from_payload payload

    unfoldable pub get_current_account : Option String → ℕ → Action Db Unauthorized AccountClaims
    get_current_account credentials now = do
      token ← or_raise credentials unauthorized
      claims_from token now (t.decode_account token)

unfoldable pub get_current_admin : Tokens → Option String → Action Db Unauthorized AdminClaims
get_current_admin t credentials = do
  token ← or_raise credentials unauthorized
  payload ← or_raise (t.decode_admin token) unauthorized
  raise_if (not (says "admin" payload.typ)) unauthorized
  admin_id ← or_raise (subject t.uuid payload.sub) unauthorized
  found ← gets (λ db. find (λ r. r.id == admin_id) db.admins)
  admin ← or_raise found unauthorized
  raise_if (not (is_active_admin admin.status_code)) unauthorized
  pure (record { admin_id = admin.id; username = admin.username; role_code = admin.role_code })
