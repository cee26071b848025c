-- ===== src/Routes/Listings.antt =====
-- The listings: `list_activation_keys` of backend_python/src/services/activation_key_service.py,
-- `list_api_keys` of api_key_service.py, and their routes. Both pass any limit on; the routes have
-- checked that it lies between 1 and 500.
use ark_esp_backend.Prelude.{ℕ, String, Option, none, List, map, Action, ◌==◌, pure, ◌>>=◌}
use ark_esp_backend.Prelude.Table.{select}
use ark_esp_backend.Models.{ActivationKey, ApiKey, Db, State}
use ark_esp_backend.Pagination.{Codec, InvalidCursor, list_rows}
use ark_esp_backend.Routes.Http.{HttpError, problem, handling}
use ark_esp_backend.Routes.Groups.{Route}
use ark_esp_backend.Routes.ActivationKeys.{ActivationKeyOut, key_out}
use ark_esp_backend.Routes.ApiKeys.{ApiKeyOut, api_key_out}

abbrev pub activation_key_place : ActivationKey → ℕ × ℕ
activation_key_place k = (k.created_at, k.id)

abbrev pub api_key_place : ApiKey → ℕ × ℕ
api_key_place k = (k.created_at, k.id)

abbrev pub keys_of : ℕ → Db → List ApiKey
keys_of account_id db = select (λ k. k.account_id == account_id) db.api_keys

abbrev pub invalid_cursor_error : InvalidCursor → HttpError
invalid_cursor_error e = problem 400 "invalid_cursor"

module _ (c : Codec) (cursor : Option String) (limit : ℕ) where
  unfoldable pub list_activation_keys :
      Action State InvalidCursor (List ActivationKey × Option String)
  list_activation_keys s = (list_rows activation_key_place c cursor limit s.db.activation_keys, s)

  unfoldable pub list_api_keys : ℕ → Action State InvalidCursor (List ApiKey × Option String)
  list_api_keys account_id s = (list_rows api_key_place c cursor limit (keys_of account_id s.db), s)

  unfoldable pub get_activation_keys :
      Action State HttpError (List ActivationKeyOut × Option String)
  get_activation_keys = do
    (rows, next_cursor) ← handling invalid_cursor_error list_activation_keys
    pure (map (key_out none) rows, next_cursor)

  unfoldable pub get_api_keys : Route (List ApiKeyOut × Option String)
  get_api_keys claims = do
    (rows, next_cursor) ← handling invalid_cursor_error (list_api_keys claims.account_id)
    pure (map (api_key_out none) rows, next_cursor)
