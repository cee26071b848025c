-- ===== src/ApiKeys/Service.antt =====
-- backend_python/src/services/api_key_service.py on backend_python/src/repositories/api_key_repo.py,
-- without the listing. The fresh id, the time, the token and the digest are arguments, and so is
-- whether a cache was given. Tokens are ASCII, so that a byte of one is a character.
use Prim.Native.String.{slice, len}
use ark_esp_backend.Prelude.{
  ℕ, String, ◌-◌, Bool, not, ◌&&◌, ◌||◌, Option, none, some, List, [], ◌∷◌, ◌==◌, str_eq,
  if◌then◌else◌, is_some, Action, Result, ok, err, or_raise, pure, ◌>>=◌, ◌>>◌,
}
use ark_esp_backend.Prelude.Table.{find, update, delete}
use ark_esp_backend.Models.{ApiKeyStatus, ApiKey, Db, Redis, State}
use ark_esp_backend.Secrets.{Hashing, hash_token}
use ark_esp_backend.ApiKeys.Cache.{set_key, delete_key}

-- `integrity` is an IntegrityError, which this service does not catch.
pub data ApiKeyError : Type 0 where
  not_found integrity : ApiKeyError

pub record ApiKeyCreate : Type 0 where
  pub scopes : List String
  pub expires_at : Option ℕ

-- `dict.fromkeys`: the first of equal scopes stays
abbrev pub dedup : List String → List String
dedup [] = []
dedup (x ∷ xs) = x ∷ delete (λ y. str_eq y x) (dedup xs)

-- A key of an account that does not exist, and a token that another key has, are refused.
unfoldable pub insert_api_key : ApiKey → Db → Option Db
insert_api_key r db =
    if is_some (find (λ x. x.id == r.id) db.api_keys)
      || is_some (find (λ x. str_eq x.key_hash r.key_hash) db.api_keys)
      || not (is_some (find (λ x. x.id == r.account_id) db.accounts))
    then none
    else some (record db { api_keys = r ∷ db.api_keys })

abbrev pub get_by_id_for_account : (key_id account_id : ℕ) → Db → Option ApiKey
get_by_id_for_account key_id account_id db =
    find (λ r. r.id == key_id && r.account_id == account_id) db.api_keys

abbrev settle : State → Option Db → (Result ApiKeyError (Unit {0})) × State
settle s none = (err integrity, s)
settle s (some after) = (ok tt, record s { db = after })

abbrev try_insert : (Db → Option Db) → Action State ApiKeyError Unit
try_insert f s = settle s (f s.db)

-- `if cache is not None`
abbrev pub on_cache : Bool → (Redis → Redis) → Action State ApiKeyError Unit
on_cache cache f s = (ok tt, record s { redis = if cache then f s.redis else s.redis })

abbrev query : {A : Type 0} → (Db → A) → Action State ApiKeyError A
query f s = (ok (f s.db), s)

abbrev write : (Db → Db) → Action State ApiKeyError Unit
write f s = (ok tt, record s { db = f s.db })

abbrev pub revoked : ApiKey → ApiKey
revoked r = record r { status_code = ApiKeyStatus.revoked }

module _ (h : Hashing) where
  abbrev pub new_key : (id now : ℕ) → String → ℕ → ApiKeyCreate → ApiKey
  new_key id now token account_id fields = record {
    id = id;
    account_id = account_id;
    key_hash = hash_token h token;
    prefix = slice token 0 8;
    last4 = slice token (len token - 4) (len token);
    status_code = ApiKeyStatus.active;
    expires_at = fields.expires_at;
    last_used_at = none;
    created_at = now;
    scopes = dedup fields.scopes;
  }

  unfoldable pub create_api_key :
      (String → String)
      → (id now : ℕ) → String
      → ℕ
      → ApiKeyCreate
      → Bool
      → Action State ApiKeyError (ApiKey × String)
  create_api_key digest id now token account_id fields cache = do
    let api_key : ApiKey = new_key id now token account_id fields
    try_insert (insert_api_key api_key)
    on_cache cache (set_key digest now token id account_id fields.expires_at)
    pure (api_key, token)

unfoldable pub get_api_key : (key_id account_id : ℕ) → Action State ApiKeyError ApiKey
get_api_key key_id account_id = do
  found ← query (get_by_id_for_account key_id account_id)
  or_raise found not_found

unfoldable pub revoke_api_key : (key_id account_id : ℕ) → Bool → Action State ApiKeyError ApiKey
unfolding get_api_key
revoke_api_key key_id account_id cache = do
  api_key ← get_api_key key_id account_id
  write (λ db. record db { api_keys = update (λ r. r.id == api_key.id) revoked db.api_keys })
  on_cache cache (delete_key api_key.id)
  pure (revoked api_key)
