-- ===== src/Accounts/Activation.antt =====
-- backend_python/src/services/activation_key_service.py, without its listing. `integrity` is an
-- IntegrityError that the service does not catch; a number that its column cannot hold is not
-- modelled.
pub mod Records
pub mod Audit
use ark_esp_backend.Prelude.{
  ℕ, String, Bool, true, false, not, ◌||◌, Option, none, some, ◌==◌, Action, ok, err, or_raise,
  gets, modify, raise_if, pure, ◌>>=◌, ◌>>◌,
}
use ark_esp_backend.Prelude.Int.{ℤ}
use ark_esp_backend.Prelude.Table.{update}
use ark_esp_backend.Models.{ActivationKeyStatus, ActivationKey, Db}
use ark_esp_backend.Secrets.{Hashing, hash_token}
use ark_esp_backend.Accounts.Repo.{
  get_activation_key_by_id, delete_activation_key_row, insert_activation_key,
  is_activation_key_origin,
}
use ark_esp_backend.Accounts.Register.{is_issued}

pub data ActivationKeyError : Type 0 where
  not_found collision not_deletable integrity : ActivationKeyError

pub record ActivationKeyCreate : Type 0 where
  pub duration : ℤ
  pub origin_code : String
  pub tg_user_id : Option ℤ

-- `model_fields_set`: `none` is a field that the request leaves out, `some none` an explicit null.
pub record ActivationKeyUpdate : Type 0 where
  pub origin_code : Option (Option String)
  pub tg_user_id : Option (Option ℤ)

abbrev settle : Option Db → Action Db ActivationKeyError Unit
settle none db = (err collision, db)
settle (some after) db = (ok tt, after)

abbrev try_insert : (Db → Option Db) → Action Db ActivationKeyError Unit
try_insert f db = settle (f db) db

-- what the column `origin_code`, which is not nullable and a foreign key, refuses
abbrev pub refuses_origin : Option (Option String) → Bool
refuses_origin none = false
refuses_origin (some none) = true
refuses_origin (some (some code)) = not (is_activation_key_origin code)

abbrev set_origin : Option (Option String) → String → String
set_origin none old = old
set_origin (some none) old = old
set_origin (some (some code)) old = code

abbrev set_tg_user : Option (Option ℤ) → Option ℤ → Option ℤ
set_tg_user none old = old
set_tg_user (some new) old = new

-- `setattr` for each field that the request has
unfoldable pub assign_fields : ActivationKeyUpdate → ActivationKey → ActivationKey
assign_fields fields key = record key {
  origin_code = set_origin fields.origin_code key.origin_code;
  tg_user_id = set_tg_user fields.tg_user_id key.tg_user_id;
}

module _ (h : Hashing) where
  abbrev pub new_key : (id now : ℕ) → String → ActivationKeyCreate → ActivationKey
  new_key id now token fields = record {
    id = id;
    token_hash = hash_token h token;
    duration = fields.duration;
    origin_code = fields.origin_code;
    status_code = ActivationKeyStatus.issued;
    redeemed_at = none;
    redeemed_by_account_id = none;
    tg_user_id = fields.tg_user_id;
    created_at = now;
  }

  -- Any IntegrityError is taken for a collision of tokens.
  unfoldable pub create_activation_key :
      (id now : ℕ)
      → String
      → ActivationKeyCreate
      → Action Db ActivationKeyError (ActivationKey × String)
  create_activation_key id now token fields = do
    try_insert (insert_activation_key (new_key id now token fields))
    pure (new_key id now token fields, token)

abbrev pub get_activation_key : ℕ → Action Db ActivationKeyError ActivationKey
get_activation_key key_id = do
  found ← gets (get_activation_key_by_id key_id)
  or_raise found not_found

unfoldable pub update_activation_key :
    ℕ → ActivationKeyUpdate → Action Db ActivationKeyError ActivationKey
update_activation_key key_id fields = do
  key ← get_activation_key key_id
  raise_if (refuses_origin fields.origin_code) integrity
  modify (λ db. record db {
    activation_keys = update (λ r. r.id == key.id) (assign_fields fields) db.activation_keys;
  })
  pure (assign_fields fields key)

unfoldable pub delete_activation_key : ℕ → Action Db ActivationKeyError Unit
delete_activation_key key_id = do
  key ← get_activation_key key_id
  raise_if (not (is_issued key.status_code)) not_deletable
  modify (delete_activation_key_row key)
