-- ===== src/ApiKeys/Tests.antt =====
-- Runs of the API keys, and their theorems at concrete inputs.
use ark_esp_backend.Prelude.{
  ℕ, String, ◌≡◌, refl, true, false, none, some, List, [], ◌∷◌, arith, ok, err, if◌then◌else◌,
  str_eq,
}
use ark_esp_backend.Models.{AccountStatus, Account, ApiKeyStatus, ApiKey, State}
use ark_esp_backend.Secrets.{Hashing, Verdict, hash_token}
use ark_esp_backend.Auth.Bearer.{account_claims_from_api_key, unauthorized}
use ark_esp_backend.ApiKeys.Cache.{set_key, lifetime, put_key, delete_key, delete_token}
use ark_esp_backend.ApiKeys.Service.{
  ApiKeyCreate, not_found, insert_api_key, create_api_key, get_api_key, revoke_api_key, revoked,
}
use ark_esp_backend.ApiKeys.Mirror.{KeyRequest, IsMirrored, serve, relay_accepts_active_keys}
use ark_esp_backend.ApiKeys.Repeat.{revoke_again_changes_nothing}
use ark_esp_backend.ApiKeys.Isolation.{foreign_key_is_hidden, revoked_key_is_refused}

abbrev plain : Hashing
plain = record {
  hmac = λ key message. message;
  hash = λ salt digest. digest;
  verify = λ password_hash digest.
      if str_eq password_hash digest then Verdict.matches else Verdict.mismatch;
  pepper = "pepper";
}

abbrev digest : String → String
digest token = token

abbrev account : ℕ → String → Account
account id login = record {
  id = id;
  login = login;
  password_hash = "";
  expires_at = none;
  status_code = AccountStatus.active;
  deleted_at = none;
  created_at = 0;
  last_login_at = none;
  failed_attempts = 0;
  locked_until = none;
  active_group_id = none;
}

abbrev start : State
start = record {
  db = record {
    accounts = account 1 "ann" ∷ account 2 "bob" ∷ [];
    groups = [];
    members = [];
    invites = [];
    activation_keys = [];
    api_keys = [];
    reset_tokens = [];
    admins = [];
  };
  redis = record {
    member = λ g a. false;
    active = λ a. none;
    revoked = [];
    token = λ d. none;
    digest = λ k. none;
  };
}

abbrev forever : ApiKeyCreate
forever = record { scopes = "read" ∷ "write" ∷ "read" ∷ []; expires_at = none }

abbrev requests : List KeyRequest
requests =
    KeyRequest.create 10 100 "secret-token-one" 1 forever
    ∷ KeyRequest.create 11 101 "secret-token-two" 2 forever
    ∷ KeyRequest.revoke 10 1
    ∷ KeyRequest.revoke 11 1
    ∷ []

start-IsMirrored : IsMirrored plain digest start
start-IsMirrored d a ttl e = absurd (ground arith)

-- The token of the key that its owner revoked is gone, the other one stands for thirty days.
first_token_gone : (serve plain digest requests start).redis.token "secret-token-one" ≡ none
unfolding create_api_key insert_api_key set_key lifetime put_key revoke_api_key get_api_key
    delete_key delete_token hash_token
first_token_gone = refl

second_token_stands :
    (serve plain digest requests start).redis.token "secret-token-two" ≡ some (2, 2_592_000)
unfolding create_api_key insert_api_key set_key lifetime put_key revoke_api_key get_api_key
    delete_key delete_token hash_token
second_token_stands = refl

relay_accepts_active_keys_example : IsMirrored plain digest (serve plain digest requests start)
relay_accepts_active_keys_example =
    relay_accepts_active_keys plain digest requests start start-IsMirrored

abbrev row : ApiKey
row = record {
  id = 10;
  account_id = 1;
  key_hash = "opaque_token:secret-token-one";
  prefix = "secret-t";
  last4 = "-one";
  status_code = ApiKeyStatus.active;
  expires_at = none;
  last_used_at = none;
  created_at = 100;
  scopes = "read" ∷ "write" ∷ [];
}

abbrev one_key : State
one_key = record start { db = record start.db { api_keys = row ∷ [] } }

first_row :
    create_api_key plain digest 10 100 "secret-token-one" 1 forever false start
    ≡ (ok (row, "secret-token-one"), one_key)
unfolding create_api_key insert_api_key hash_token
first_row = refl

foreign_key_is_hidden_example :
    (get_api_key 10 2 one_key ≡ (err not_found, one_key))
    × (revoke_api_key 10 2 true one_key ≡ (err not_found, one_key))
foreign_key_is_hidden_example =
    foreign_key_is_hidden 10 2 true one_key row (refl, tt) refl (λ e. omega (arith, e))

abbrev one_revoked : State
one_revoked = record start { db = record start.db { api_keys = revoked row ∷ [] } }

row_revoked : revoke_api_key 10 1 false one_key ≡ (ok (revoked row), one_revoked)
unfolding revoke_api_key get_api_key
row_revoked = refl

row_hash : row.key_hash ≡ hash_token plain "secret-token-one"
unfolding hash_token
row_hash = refl

revoked_key_is_refused_example :
    account_claims_from_api_key plain "secret-token-one" 500 one_revoked.db
    ≡ (err unauthorized, one_revoked.db)
revoked_key_is_refused_example =
    revoked_key_is_refused plain "secret-token-one" 10 1 false one_key one_revoked row (revoked row)
      refl row_hash refl row_revoked 500

abbrev twice : State
twice = (revoke_api_key 10 1 true one_key).1

once : revoke_api_key 10 1 true one_key ≡ (ok (revoked row), twice)
unfolding revoke_api_key get_api_key
once = refl

revoke_again_changes_nothing_example :
    ((revoke_api_key 10 1 true twice).0 ≡ ok (revoked row))
    × ((revoke_api_key 10 1 true twice).1.db ≡ twice.db)
    × ((d : String) → (revoke_api_key 10 1 true twice).1.redis.token d ≡ twice.redis.token d)
    × ((j : ℕ) → (revoke_api_key 10 1 true twice).1.redis.digest j ≡ twice.redis.digest j)
revoke_again_changes_nothing_example =
    revoke_again_changes_nothing 10 1 one_key twice (revoked row) row refl once
