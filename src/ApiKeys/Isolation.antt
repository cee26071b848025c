-- ===== src/ApiKeys/Isolation.antt =====
-- Who can see and revoke a key, and what a revoked key is still good for.
use ark_esp_backend.Prelude.{
  ℕ, String, ◌≡◌, ◌≢◌, refl, sym, ◌∙◌, ap, inl, inr, Bool, not, ◌&&◌, none, some, List, [], ◌∷◌,
  ◌==◌, str_eq, arith, Option-cases, ok, err,
}
use ark_esp_backend.Prelude.Table.{find, update, find_sound}
use ark_esp_backend.Prelude.Unique.{HasUniqueKeys, find_by_key}
use ark_esp_backend.Models.{ApiKey, State}
use ark_esp_backend.Secrets.{Hashing, hash_token}
use ark_esp_backend.Auth.Bearer.{
  is_active_key, get_active_by_hash, account_claims_from_api_key, unauthorized,
}
use ark_esp_backend.ApiKeys.Service.{
  not_found, get_by_id_for_account, get_api_key, revoked, revoke_api_key,
}

abbrev pub key_id : ApiKey → ℕ
key_id r = r.id

hidden :
    (k a : ℕ) (keys : List ApiKey) (key : ApiKey)
    → HasUniqueKeys key_id keys
    → find (λ r. r.id == k) keys ≡ some key
    → key.account_id ≢ a
    → find (λ r. r.id == k && r.account_id == a) keys ≡ none
hidden k a keys key u found foreign =
    elim (Option-cases (find (λ r. r.id == k && r.account_id == a) keys)) [
      | inl absent ↦ absent
      | inr (x, e) ↦
          let hit = find_sound (λ (r : ApiKey). r.id == k && r.account_id == a) keys x e in
          let own = find_by_key key_id (λ r. r.id == k && r.account_id == a) keys x u e in
          ground arith
    ]

-- A key of another account cannot be read or revoked: where ids are unique, both calls answer as for
-- a key that does not exist, and nothing is written.
pub foreign_key_is_hidden :
    (k a : ℕ) (cache : Bool) (s : State) (key : ApiKey)
    → HasUniqueKeys key_id s.db.api_keys
    → find (λ r. r.id == k) s.db.api_keys ≡ some key
    → key.account_id ≢ a
    → (get_api_key k a s ≡ (err not_found, s)) × (revoke_api_key k a cache s ≡ (err not_found, s))
unfolding revoke_api_key get_api_key
foreign_key_is_hidden k a cache s key u found foreign =
    let absent = hidden k a s.db.api_keys key u found foreign in (rw absent refl, rw absent refl)

-- no row but the key's has its hash
abbrev pub IsOnlyHolder : ApiKey → List ApiKey → Type 0
IsOnlyHolder key keys =
    find (λ r. str_eq r.key_hash key.key_hash && not (r.id == key.id)) keys ≡ none

none_active :
    (key : ApiKey) (keys : List ApiKey)
    → IsOnlyHolder key keys
    → find
        (λ r. str_eq r.key_hash key.key_hash && is_active_key r.status_code)
        (update (λ r. r.id == key.id) revoked keys)
      ≡ none
none_active key [] only = refl
none_active key (x ∷ xs) only = ground (arith, none_active key xs)

-- After its owner revoked a key, its token is refused as a bearer at any time, and the refusal writes
-- nothing, if no other row of the table has the hash of the token.
pub revoked_key_is_refused :
    (h : Hashing) (token : String) (k a : ℕ) (cache : Bool) (s s' : State) (key r : ApiKey)
    → get_by_id_for_account k a s.db ≡ some key
    → key.key_hash ≡ hash_token h token
    → IsOnlyHolder key s.db.api_keys
    → revoke_api_key k a cache s ≡ (ok r, s')
    → (now : ℕ) → account_claims_from_api_key h token now s'.db ≡ (err unauthorized, s'.db)
unfolding account_claims_from_api_key revoke_api_key get_api_key get_active_by_hash
revoked_key_is_refused h token k a cache s s' key r found same only done now =
    let rows = update (λ (r : ApiKey). r.id == key.id) revoked s.db.api_keys in
    let outcome : (revoke_api_key k a cache s).1.db ≡ record s.db { api_keys = rows } =
      rw found refl in
    let after : s'.db ≡ record s.db { api_keys = rows } = ap (λ t. t.1.db) (sym done) ∙ outcome in
    rw (after, ← same, none_active key s.db.api_keys only) refl
