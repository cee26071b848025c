-- ===== src/Routes/ActivationKeys.antt =====
-- backend_python/src/routers/v1/activation_keys.py, without the listing.
use ark_esp_backend.Prelude.{ℕ, String, Option, none, some, Action, pure, ◌>>=◌}
use ark_esp_backend.Prelude.Int.{ℤ}
use ark_esp_backend.Models.{ActivationKey, ActivationKeyStatus, State}
use ark_esp_backend.Secrets.{Hashing}
use ark_esp_backend.Accounts.Activation.{
  ActivationKeyError, not_found, collision, not_deletable, ActivationKeyCreate, ActivationKeyUpdate,
}
use ark_esp_backend.Accounts.Activation
use ark_esp_backend.Routes.Http.{HttpError, problem, internal, handling, on_db}

pub record ActivationKeyOut : Type 0 where
  pub id : ℕ
  pub token : Option String
  pub duration : ℤ
  pub origin_code : String
  pub status_code : ActivationKeyStatus
  pub redeemed_at : Option ℕ
  pub redeemed_by_account_id : Option ℕ
  pub tg_user_id : Option ℤ
  pub created_at : ℕ

abbrev pub key_out : Option String → ActivationKey → ActivationKeyOut
key_out token k = record {
  id = k.id;
  token = token;
  duration = k.duration;
  origin_code = k.origin_code;
  status_code = k.status_code;
  redeemed_at = k.redeemed_at;
  redeemed_by_account_id = k.redeemed_by_account_id;
  tg_user_id = k.tg_user_id;
  created_at = k.created_at;
}

abbrev pub activation_key_not_found : HttpError
activation_key_not_found = problem 404 "activation_key_not_found"

abbrev pub create_error : ActivationKeyError → HttpError
create_error collision = problem 409 "token_collision"
create_error _ = internal

abbrev pub missing_key : ActivationKeyError → HttpError
missing_key not_found = activation_key_not_found
missing_key _ = internal

abbrev pub delete_error : ActivationKeyError → HttpError
delete_error not_found = activation_key_not_found
delete_error not_deletable = problem 409 "activation_key_not_deletable"
delete_error _ = internal

unfoldable pub post_activation_key :
    Hashing → (id now : ℕ) → String → ActivationKeyCreate → Action State HttpError ActivationKeyOut
post_activation_key h id now token body = do
  made ← handling create_error (on_db (Activation.create_activation_key h id now token body))
  pure (key_out (some made.1) made.0)

unfoldable pub get_activation_key_by_id : ℕ → Action State HttpError ActivationKeyOut
get_activation_key_by_id key_id = do
  key ← handling missing_key (on_db (Activation.get_activation_key key_id))
  pure (key_out none key)

unfoldable pub patch_activation_key :
    ℕ → ActivationKeyUpdate → Action State HttpError ActivationKeyOut
patch_activation_key key_id body = do
  key ← handling missing_key (on_db (Activation.update_activation_key key_id body))
  pure (key_out none key)

unfoldable pub delete_activation_key_by_id : ℕ → Action State HttpError Unit
delete_activation_key_by_id key_id =
    handling delete_error (on_db (Activation.delete_activation_key key_id))
