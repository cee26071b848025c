-- ===== src/Accounts/Register.antt =====
-- backend_python/src/services/account_service.py.
pub mod Laws
use ark_esp_backend.Prelude.{
  ℕ, String, Bool, true, false, not, Option, none, some, ◌==◌, if◌then◌else◌, Action, ok, err,
  or_raise, raise, gets, modify, raise_if, pure, ◌>>=◌, ◌>>◌,
}
use ark_esp_backend.Prelude.Int.{ℤ, pos, ◌+ℤ◌}
use ark_esp_backend.Prelude.Table.{update}
use ark_esp_backend.Models.{AccountStatus, Account, ActivationKeyStatus, ActivationKey, Db}
use ark_esp_backend.Secrets.{Hashing, hash_password, verify_password, hash_token}
use ark_esp_backend.Accounts.Repo.{get_key_by_token_hash_for_update, get_account}
use ark_esp_backend.Accounts.Repo

-- `login` alone is a conflict: a fresh id does not collide.
pub data AccountError : Type 0 where
  invalid_activation_key conflict invalid_old_password : AccountError

abbrev pub is_issued : ActivationKeyStatus → Bool
is_issued ActivationKeyStatus.issued = true
is_issued ActivationKeyStatus.redeemed = false

-- an insert that the database may refuse
abbrev settle : Option Db → Action Db AccountError Unit
settle none db = (err conflict, db)
settle (some after) db = (ok tt, after)

abbrev pub try_insert : (Db → Option Db) → Action Db AccountError Unit
try_insert f db = settle (f db) db

-- the new row of `register_account`
abbrev pub new_account : ℕ → ℕ → String → String → ActivationKey → Account
new_account id now login password_hash key = record {
  id = id;
  login = login;
  password_hash = password_hash;
  expires_at = some (pos now +ℤ key.duration);
  status_code = AccountStatus.active;
  deleted_at = none;
  created_at = now;
  last_login_at = none;
  failed_attempts = 0;
  locked_until = none;
  active_group_id = none;
}

unfoldable pub redeem : ℕ → ℕ → ActivationKey → ActivationKey
redeem now account_id key = record key {
  status_code = ActivationKeyStatus.redeemed;
  redeemed_at = some now;
  redeemed_by_account_id = some account_id;
}

module _ (h : Hashing) where
  -- `AccountRegisterRequest` is the login, the password and the activation key.
  unfoldable pub register_account :
      (id now : ℕ) → (salt login password activation_key : String) → Action Db AccountError Account
  register_account id now salt login password activation_key = do
    found ← gets (get_key_by_token_hash_for_update (hash_token h activation_key))
    key ← or_raise found invalid_activation_key
    raise_if (not (is_issued key.status_code)) invalid_activation_key
    let account = new_account id now login (hash_password h salt password) key
    try_insert (Repo.insert account)
    modify (λ db. record db {
      activation_keys = update (λ r. r.id == key.id) (redeem now id) db.activation_keys;
    })
    pure account

  unfoldable pub change_password :
      (account_id : ℕ) → (salt old_password new_password : String) → Action Db AccountError Account
  change_password account_id salt old_password new_password = do
    found ← gets (get_account account_id)
    account ← or_raise found invalid_old_password
    raise_if (not (verify_password h old_password account.password_hash)) invalid_old_password
    let set = λ (r : Account). record r { password_hash = hash_password h salt new_password }
    modify (λ db. record db { accounts = update (λ r. r.id == account.id) set db.accounts })
    pure (set account)
