-- ===== src/ApiKeys/Repeat.antt =====
-- Revoking twice.
use ark_esp_backend.Prelude.{
  ℕ, String, ◌≡◌, refl, sym, ◌∙◌, ap, inl, inr, true, ◌&&◌, none, some, List, [], ◌∷◌, ◌==◌, arith,
  Bool-cases, Option-cases, ok, Result, ==_refl,
}
use mathlib.Core.Path.{subst}
use ark_esp_backend.Prelude.Table.{update, find-update}
use ark_esp_backend.Models.{ApiKey, Db, Redis, State}
use ark_esp_backend.ApiKeys.Cache.{delete_key, delete_token}
use ark_esp_backend.ApiKeys.Service.{
  ApiKeyError, get_by_id_for_account, get_api_key, revoked, revoke_api_key,
}

abbrev revoke_in : ApiKey → Db → Db
revoke_in key db = record db { api_keys = update (λ r. r.id == key.id) revoked db.api_keys }

abbrev after : ApiKey → State → State
after key s = record { db = revoke_in key s.db; redis = delete_key key.id s.redis }

revoke_outcome :
    (k a : ℕ) (s : State) (key : ApiKey)
    → get_by_id_for_account k a s.db ≡ some key
    → revoke_api_key k a true s ≡ (ok (revoked key), after key s)
unfolding revoke_api_key get_api_key
revoke_outcome k a s key found = rw found refl

revoked_twice :
    (k : ℕ) (keys : List ApiKey)
    → update (λ r. r.id == k) revoked (update (λ r. r.id == k) revoked keys)
      ≡ update (λ r. r.id == k) revoked keys
revoked_twice k [] = refl
revoked_twice k (x ∷ xs) = elim (Bool-cases (x.id == k)) [
  | inl hit ↦ rw (hit, hit, revoked_twice k xs) refl
  | inr miss ↦ rw (miss, miss, revoked_twice k xs) refl
]

index_gone : (k : ℕ) (r : Redis) → (delete_key k r).digest k ≡ none
unfolding delete_key delete_token
index_gone k r = elim (Option-cases (r.digest k)) [
  | inl e ↦ rw (e, ==_refl) refl
  | inr (d, e) ↦ rw (e, ==_refl) refl
]

-- what a second `delete_key` finds
nothing_left :
    (k : ℕ) (r : Redis)
    → r.digest k ≡ none
    → ((d : String) → (delete_key k r).token d ≡ r.token d)
      × ((j : ℕ) → (delete_key k r).digest j ≡ r.digest j)
unfolding delete_key delete_token
nothing_left k r gone = (λ d. rw gone refl, λ j. rw gone (ground (arith, gone)))

-- what the second call has to do with the outcome of the first
abbrev Unchanged : (k a : ℕ) → Result ApiKeyError ApiKey × State → Type 0
Unchanged k a (r, s) =
    ((revoke_api_key k a true s).0 ≡ r)
    × ((revoke_api_key k a true s).1.db ≡ s.db)
    × ((d : String) → (revoke_api_key k a true s).1.redis.token d ≡ s.redis.token d)
    × ((j : ℕ) → (revoke_api_key k a true s).1.redis.digest j ≡ s.redis.digest j)

found_again :
    (k a : ℕ) (s : State) (key : ApiKey)
    → get_by_id_for_account k a s.db ≡ some key
    → get_by_id_for_account k a (after key s).db ≡ some (revoked key)
found_again k a s key found = rw (
  find-update (λ r. r.id == k && r.account_id == a) (λ r. r.id == key.id) revoked s.db.api_keys
      (λ x. refl),
  found,
  ==_refl,
)

again :
    (k a : ℕ) (s : State) (key : ApiKey)
    → get_by_id_for_account k a s.db ≡ some key
    → Unchanged k a (ok (revoked key), after key s)
again k a s key found =
    let (token, digest) =
      nothing_left key.id (delete_key key.id s.redis) (index_gone key.id s.redis) in
    rw (revoke_outcome k a (after key s) (revoked key) (found_again k a s key found)) (
      refl,
      ap (λ (rows : List ApiKey). record s.db { api_keys = rows })
          (revoked_twice key.id s.db.api_keys),
      token,
      digest,
    )

-- Where a call of `revoke_api_key` with a cache returned a key, a second one returns the same key, and
-- changes neither a table nor what Redis has under any token or under any key.
pub revoke_again_changes_nothing :
    (k a : ℕ) (s s' : State) (r key : ApiKey)
    → get_by_id_for_account k a s.db ≡ some key
    → revoke_api_key k a true s ≡ (ok r, s')
    → ((revoke_api_key k a true s').0 ≡ ok r)
      × ((revoke_api_key k a true s').1.db ≡ s'.db)
      × ((d : String) → (revoke_api_key k a true s').1.redis.token d ≡ s'.redis.token d)
      × ((j : ℕ) → (revoke_api_key k a true s').1.redis.digest j ≡ s'.redis.digest j)
revoke_again_changes_nothing k a s s' r key found done =
    subst (Unchanged k a) (sym (revoke_outcome k a s key found) ∙ done) (again k a s key found)
