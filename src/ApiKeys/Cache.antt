-- ===== src/ApiKeys/Cache.antt =====
-- backend_python/src/core/api_key_cache.py: `RedisApiKeyCache`. `digest` is SHA-256 in hexadecimal,
-- `now` the clock in microseconds. A lifetime is stored with the token and not counted down.
use ark_esp_backend.Prelude.{
  ℕ, String, ◌-◌, ◌*◌, ◌/◌, Option, none, some, ◌==◌, str_eq, if◌then◌else◌, min,
}
use ark_esp_backend.Models.{Redis}

-- 30 days
abbrev pub max_ttl_seconds : ℕ
max_ttl_seconds = 30 * 24 * 60 * 60

-- whole seconds until `expires_at`; what lies in the past gives 0
abbrev pub remaining_seconds : ℕ → ℕ → ℕ
remaining_seconds now expires_at = (expires_at - now) / 1_000_000

-- `none`: the key has expired, and nothing is cached
abbrev ttl_for : ℕ → Option ℕ
ttl_for n = if n == 0 then none else some (min max_ttl_seconds n)

unfoldable pub lifetime : ℕ → Option ℕ → Option ℕ
lifetime now none = some max_ttl_seconds
lifetime now (some expires_at) = ttl_for (remaining_seconds now expires_at)

-- the two SETs
unfoldable pub put_key : String → (key_id account_id : ℕ) → Option ℕ → Redis → Redis
put_key d key_id account_id none r = r
put_key d key_id account_id (some ttl) r = record r {
  token = λ x. if str_eq x d then some (account_id, ttl) else r.token x;
  digest = λ k. if k == key_id then some d else r.digest k;
}

unfoldable pub set_key :
    (String → String) → ℕ → String → (key_id account_id : ℕ) → Option ℕ → Redis → Redis
set_key digest now token key_id account_id expires_at r =
    put_key (digest token) key_id account_id (lifetime now expires_at) r

-- the DEL of the digest that GETDEL gave
unfoldable pub delete_token : Option String → Redis → Redis
delete_token none r = r
delete_token (some d) r = record r { token = λ x. if str_eq x d then none else r.token x }

unfoldable pub delete_key : ℕ → Redis → Redis
delete_key key_id r =
    delete_token (r.digest key_id)
      (record r { digest = λ k. if k == key_id then none else r.digest k })
