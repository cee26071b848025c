-- ===== src/Auth/Tests.antt =====
-- Runs of the logins and of the bearer tokens, and their theorems at concrete inputs.
use ark_esp_backend.Prelude.{
  ℕ, String, ◌≡◌, ◌≤◌, refl, true, Option, none, some, List, [], ◌∷◌, arith, ok, err, if◌then◌else◌,
  str_eq, ◌+◌, ◌==◌,
}
use ark_esp_backend.Prelude.Table.{find}
use ark_esp_backend.Models.{AccountStatus, Account, AdminStatus, Admin, ApiKeyStatus, ApiKey, Db}
use ark_esp_backend.Secrets.{Hashing, Verdict, peppered, verify_password, hash_token}
use ark_esp_backend.Auth.Login.{
  account_locked, is_active_admin, authenticate_account, note_failure, lockout_duration,
}
use ark_esp_backend.Auth.Lockout.{
  password_checks, at_most_five_checks, fifth_failure_locks, AllWrong, InWindow,
}
use ark_esp_backend.Auth.Bearer.{
  Payload, Tokens, AccountClaims, AdminClaims, get_active_by_hash, active_account,
  account_claims_from_api_key, get_current_account, get_current_admin,
}
use ark_esp_backend.Auth.Claims.{
  Stands, KeyStands, api_key-KeyStands, get_current_account-Stands, get_current_admin-current,
}

abbrev plain : Hashing
plain = record {
  hmac = λ key message. message;
  hash = λ salt digest. digest;
  verify = λ password_hash digest.
      if str_eq password_hash digest then Verdict.matches else Verdict.mismatch;
  pepper = "pepper";
}

abbrev ann : Account
ann = record {
  id = 1;
  login = "ann";
  password_hash = "right";
  expires_at = none;
  status_code = AccountStatus.active;
  deleted_at = none;
  created_at = 0;
  last_login_at = none;
  failed_attempts = 4;
  locked_until = none;
  active_group_id = none;
}

abbrev ann_key : ApiKey
ann_key = record {
  id = 7;
  account_id = 1;
  key_hash = "opaque_token:key";
  prefix = "key";
  last4 = "key";
  status_code = ApiKeyStatus.active;
  expires_at = some 90;
  last_used_at = none;
  created_at = 0;
  scopes = "read" ∷ [];
}

abbrev root : Admin
root = record {
  id = 3;
  username = "root";
  display_name = none;
  password_hash = "right";
  role_code = "owner";
  status_code = AdminStatus.active;
  failed_attempts = 0;
  locked_until = none;
  password_changed_at = none;
  last_login_at = none;
  created_at = 0;
  created_by_admin_id = none;
}

abbrev tables : Db
tables = record {
  accounts = ann ∷ [];
  groups = [];
  members = [];
  invites = [];
  activation_keys = [];
  api_keys = ann_key ∷ [];
  reset_tokens = [];
  admins = root ∷ [];
}

abbrev ann_claims : AccountClaims
ann_claims = record { account_id = 1; login = "ann" }

abbrev root_claims : AdminClaims
root_claims = record { admin_id = 3; username = "root"; role_code = "owner" }

abbrev decode_root : String → Option Payload
decode_root token =
    if str_eq token "jwt" then some (record { typ = some "admin"; sub = some "3" }) else none

-- Only an admin's token decodes; the account's tokens are opaque.
abbrev opaque : Tokens
opaque = record { decode_account = λ token. none; decode_admin = decode_root; uuid = λ s. some 3 }

abbrev guesses : List (String × ℕ)
guesses = ("one", 10) ∷ ("two", 30) ∷ ("three", 20) ∷ []

guesses-AllWrong : AllWrong plain ann.password_hash guesses
unfolding verify_password peppered
guesses-AllWrong = (refl, (refl, (refl, tt)))

guesses-InWindow : InWindow 10 guesses
guesses-InWindow =
    (omega arith, omega arith, (omega arith, omega arith, (omega arith, omega arith, tt)))

-- The fifth failure locks: the next guesses are not checked.
guesses_check_once : password_checks plain "ann" guesses tables ≡ 1
unfolding password_checks authenticate_account verify_password peppered note_failure
guesses_check_once = refl

at_most_five_checks_example : password_checks plain "ann" guesses tables ≤ 5
at_most_five_checks_example =
    at_most_five_checks plain "ann" 10 guesses tables ann refl refl guesses-AllWrong
      guesses-InWindow

fifth_failure_locks_example :
    authenticate_account plain "ann" "right" 20
      (authenticate_account plain "ann" "wrong" 10 tables).1
    ≡ (
      err (account_locked (10 + lockout_duration)),
      (authenticate_account plain "ann" "wrong" 10 tables).1,
    )
unfolding verify_password peppered
fifth_failure_locks_example =
    fifth_failure_locks plain "ann" "wrong" "right" 10 20 tables ann refl refl refl (omega arith)
      (omega arith)

key_accepted : (account_claims_from_api_key plain "key" 50 tables).0 ≡ ok ann_claims
unfolding account_claims_from_api_key get_active_by_hash active_account hash_token
key_accepted = refl

bearer_accepted : (get_current_account plain opaque (some "key") 50 tables).0 ≡ ok ann_claims
unfolding get_current_account account_claims_from_api_key get_active_by_hash active_account
    hash_token
bearer_accepted = refl

admin_accepted : (get_current_admin opaque (some "jwt") tables).0 ≡ ok root_claims
unfolding get_current_admin
admin_accepted = refl

api_key-KeyStands_example : KeyStands plain "key" 50 tables ann_claims
api_key-KeyStands_example = api_key-KeyStands plain "key" 50 tables ann_claims key_accepted

get_current_account-Stands_example : Stands tables ann_claims
get_current_account-Stands_example =
    get_current_account-Stands plain "key" 50 tables ann_claims opaque bearer_accepted

get_current_admin-current_example :
    (r : Admin) × (find (λ x. x.id == 3) tables.admins ≡ some r)
    × (is_active_admin r.status_code ≡ true)
    × (r.role_code ≡ "owner")
    × (r.username ≡ "root")
get_current_admin-current_example =
    get_current_admin-current opaque "jwt" tables root_claims admin_accepted
