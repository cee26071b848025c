-- ===== src/Routes/ApiKeys.antt =====
-- backend_python/src/routers/v1/api_keys.py with schemas/api_key.py, without the listing.
use ark_esp_backend.Prelude.{ℕ, String, Option, none, some, List, true, pure, ◌>>=◌}
use ark_esp_backend.Models.{ApiKey, ApiKeyStatus}
use ark_esp_backend.Secrets.{Hashing}
use ark_esp_backend.ApiKeys.Service.{ApiKeyError, not_found, ApiKeyCreate}
use ark_esp_backend.ApiKeys.Service
use ark_esp_backend.Routes.Http.{HttpError, problem, internal, handling}
use ark_esp_backend.Routes.Groups.{Route}

pub record ApiKeyOut : Type 0 where
  pub id : ℕ
  pub token : Option String
  pub prefix : String
  pub last4 : String
  pub status_code : ApiKeyStatus
  pub scopes : List String
  pub expires_at : Option ℕ
  pub last_used_at : Option ℕ
  pub created_at : ℕ

abbrev pub api_key_out : Option String → ApiKey → ApiKeyOut
api_key_out token k = record {
  id = k.id;
  token = token;
  prefix = k.prefix;
  last4 = k.last4;
  status_code = k.status_code;
  scopes = k.scopes;
  expires_at = k.expires_at;
  last_used_at = k.last_used_at;
  created_at = k.created_at;
}

abbrev pub api_key_error : ApiKeyError → HttpError
api_key_error not_found = problem 404 "api_key_not_found"
api_key_error _ = internal

unfoldable pub post_api_key :
    Hashing → (String → String) → (id now : ℕ) → String → ApiKeyCreate → Route ApiKeyOut
post_api_key h digest id now token body claims = do
  made ←
      handling (λ e. internal)
        (Service.create_api_key h digest id now token claims.account_id body true)
  pure (api_key_out (some made.1) made.0)

unfoldable pub get_api_key_by_id : ℕ → Route ApiKeyOut
get_api_key_by_id key_id claims = do
  key ← handling api_key_error (Service.get_api_key key_id claims.account_id)
  pure (api_key_out none key)

unfoldable pub delete_api_key : ℕ → Route ApiKeyOut
delete_api_key key_id claims = do
  key ← handling api_key_error (Service.revoke_api_key key_id claims.account_id true)
  pure (api_key_out none key)
