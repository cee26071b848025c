-- ===== src/Accounts/Repo.antt =====
-- backend_python/src/repositories: activation_key_repo.py, password_reset_repo.py and the insert of
-- account_repo.py. `none` is an IntegrityError.
use ark_esp_backend.Prelude.{
  ℕ, String, Bool, not, ◌&&◌, ◌||◌, Option, none, some, ◌∷◌, ◌==◌, str_eq, if◌then◌else◌, is_some,
}
use ark_esp_backend.Prelude.Table.{find, delete}
use ark_esp_backend.Models.{Account, ActivationKey, AccountPasswordResetToken, Db}

-- The partial index lets the login of a deleted account be used again.
unfoldable pub insert : Account → Db → Option Db
insert r db =
    if is_some (find (λ x. x.id == r.id) db.accounts)
      || is_some (find (λ x. str_eq x.login r.login && not (is_some x.deleted_at)) db.accounts)
    then none
    else some (record db { accounts = r ∷ db.accounts })

abbrev pub is_activation_key_origin : String → Bool
is_activation_key_origin code = str_eq code "purchase" || str_eq code "invite" || str_eq code "gift"

unfoldable pub insert_activation_key : ActivationKey → Db → Option Db
insert_activation_key r db =
    if is_some (find (λ x. x.id == r.id) db.activation_keys)
      || is_some (find (λ x. str_eq x.token_hash r.token_hash) db.activation_keys)
      || not (is_activation_key_origin r.origin_code)
    then none
    else some (record db { activation_keys = r ∷ db.activation_keys })

abbrev pub get_activation_key_by_id : ℕ → Db → Option ActivationKey
get_activation_key_by_id id db = find (λ r. r.id == id) db.activation_keys

abbrev pub get_key_by_token_hash_for_update : String → Db → Option ActivationKey
get_key_by_token_hash_for_update token_hash db =
    find (λ r. str_eq r.token_hash token_hash) db.activation_keys

abbrev pub delete_activation_key_row : ActivationKey → Db → Db
delete_activation_key_row key db = record db {
  activation_keys = delete (λ r. r.id == key.id) db.activation_keys;
}

unfoldable pub insert_reset_token : AccountPasswordResetToken → Db → Option Db
insert_reset_token r db =
    if is_some (find (λ x. x.id == r.id) db.reset_tokens)
      || is_some (find (λ x. str_eq x.token_hash r.token_hash) db.reset_tokens)
      || not (is_some (find (λ x. x.id == r.account_id) db.accounts))
      || not (is_some (find (λ x. x.id == r.created_by_admin_id) db.admins))
    then none
    else some (record db { reset_tokens = r ∷ db.reset_tokens })

abbrev pub get_reset_by_token_hash_for_update : String → Db → Option AccountPasswordResetToken
get_reset_by_token_hash_for_update token_hash db =
    find (λ r. str_eq r.token_hash token_hash) db.reset_tokens

abbrev pub get_account : ℕ → Db → Option Account
get_account id db = find (λ r. r.id == id) db.accounts
