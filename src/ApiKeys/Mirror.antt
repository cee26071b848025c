-- ===== src/ApiKeys/Mirror.antt =====
-- The tokens in Redis are those of active keys, whatever is asked of the service.
use ark_esp_backend.Prelude.{
  ℕ, String, ◌≡◌, refl, sym, ◌∙◌, ap, ◌⊎◌, inl, inr, true, false, Option, none, some, List, [], ◌∷◌,
  ◌==◌, str_eq, arith, Bool-cases, Option-cases, ◌≢◌, eq_iff, ==_refl, ==_iff,
}
use ark_esp_backend.Prelude.Table.{find, update, find-update, change}
use ark_esp_backend.Models.{ApiKeyStatus, ApiKey, Db, Redis, State}
use ark_esp_backend.Secrets.{Hashing, hash_token}
use ark_esp_backend.ApiKeys.Cache.{lifetime, put_key, set_key, delete_token, delete_key}
use ark_esp_backend.ApiKeys.Service.{
  ApiKeyCreate, insert_api_key, get_by_id_for_account, get_api_key, new_key, revoked,
  create_api_key, revoke_api_key,
}

abbrev at_id : ℕ → List ApiKey → Option ApiKey
at_id k keys = find (λ r. r.id == k) keys

module _ (h : Hashing) (digest : String → String) where
  -- What stands behind a digest in Redis: a token that hashes to an active key of the account, and
  -- Redis knows the digest under the id of that key.
  pub record IsBacked (keys : List ApiKey) (index : ℕ → Option String) (d : String) (account_id : ℕ)
      : Type 0 where
    pub key : ApiKey
    pub token : String
    pub found : at_id key.id keys ≡ some key
    pub hash : key.key_hash ≡ hash_token h token
    pub digested : d ≡ digest token
    pub active : key.status_code ≡ ApiKeyStatus.active
    pub owner : key.account_id ≡ account_id
    pub indexed : index key.id ≡ some d

  -- Every digest that the relay would accept is backed by an active key.
  abbrev pub IsMirrored : State → Type 0
  IsMirrored s =
      (d : String) (account_id ttl : ℕ)
      → s.redis.token d ≡ some (account_id, ttl)
      → IsBacked s.db.api_keys s.redis.digest d account_id

pub data KeyRequest : Type 0 where
  create : (id now : ℕ) → String → (account_id : ℕ) → ApiKeyCreate → KeyRequest
  revoke : (key_id account_id : ℕ) → KeyRequest

module _ (h : Hashing) (digest : String → String) where
  abbrev pub handle : KeyRequest → State → State
  handle (create id now token a fields) s = (create_api_key h digest id now token a fields true s).1
  handle (revoke k a) s = (revoke_api_key k a true s).1

  abbrev pub serve : List KeyRequest → State → State
  serve [] s = s
  serve (r ∷ rs) s = serve rs (handle r s)

insert_api_key-cases :
    (r : ApiKey) (db : Db)
    → (insert_api_key r db ≡ none)
      ⊎ ((at_id r.id db.api_keys ≡ none)
          × (insert_api_key r db ≡ some (record db { api_keys = r ∷ db.api_keys })))
unfolding insert_api_key
insert_api_key-cases r db = elim (Option-cases (at_id r.id db.api_keys)) [
  | inr (x, e) ↦ inl (rw e refl)
  | inl fresh ↦ elim (Option-cases (insert_api_key r db)) [
    | inl refused ↦ inl refused
    | inr (after, e) ↦ inr (fresh, ground arith)
  ]
]

module _ {h : Hashing} {digest : String → String} {d : String} {account_id : ℕ} {keys : List ApiKey}
    {index : ℕ → Option String} where
  -- A key that is there already keeps its place when a fresh one comes.
  IsBacked-insert :
      (r : ApiKey) (index' : ℕ → Option String)
      → at_id r.id keys ≡ none
      → ((k : ℕ) → (k == r.id) ≡ false → index' k ≡ index k)
      → IsBacked h digest keys index d account_id
      → IsBacked h digest (r ∷ keys) index' d account_id
  IsBacked-insert r index' fresh same b =
      let other : (r.id == b.key.id) ≡ false = ground (arith, fresh, b.found) in
      record {
        key = b.key;
        token = b.token;
        found = rw other b.found;
        hash = b.hash;
        digested = b.digested;
        active = b.active;
        owner = b.owner;
        indexed = same b.key.id (ground arith) ∙ b.indexed;
      }

  IsBacked-revoke :
      (k : ℕ) (index' : ℕ → Option String)
      → ((j : ℕ) → (j == k) ≡ false → index' j ≡ index j)
      → ((b : IsBacked h digest keys index d account_id) → (b.key.id == k) ≡ false)
      → IsBacked h digest keys index d account_id
      → IsBacked h digest (update (λ r. r.id == k) revoked keys) index' d account_id
  IsBacked-revoke k index' same apart b =
      let other = apart b in
      record {
        key = b.key;
        token = b.token;
        found =
            find-update (λ r. r.id == b.key.id) (λ r. r.id == k) revoked keys (λ x. refl)
            ∙ (ap (change (λ r. r.id == k) revoked) b.found ∙ rw other refl);
        hash = b.hash;
        digested = b.digested;
        active = b.active;
        owner = b.owner;
        indexed = same b.key.id other ∙ b.indexed;
      }

-- What a write of the two keys leaves under a token.
token-put_key :
    (x d : String) (k a : ℕ) (ttl : Option ℕ) (r : Redis) (a' ttl' : ℕ)
    → (put_key d k a ttl r).token x ≡ some (a', ttl')
    → (r.token x ≡ some (a', ttl'))
      ⊎ ((x ≡ d) × (a ≡ a') × ((put_key d k a ttl r).digest k ≡ some d))
unfolding put_key
token-put_key x d k a none r a' ttl' e = inl e
token-put_key x d k a (some ttl) r a' ttl' e = elim (Bool-cases (str_eq x d)) [
  | inr other ↦ inl (rw other at e)
  | inl same ↦ inr ((eq_iff x d).0 same, ground arith, rw ==_refl refl)
]

digest-put_key :
    (d : String) (k a : ℕ) (ttl : Option ℕ) (r : Redis) (j : ℕ)
    → (j == k) ≡ false
    → (put_key d k a ttl r).digest j ≡ r.digest j
unfolding put_key
digest-put_key d k a none r j other = refl
digest-put_key d k a (some ttl) r j other = rw other refl

digest-delete_key :
    (k : ℕ) (r : Redis) (j : ℕ) → (j == k) ≡ false → (delete_key k r).digest j ≡ r.digest j
unfolding delete_key delete_token
digest-delete_key k r j other = elim (Option-cases (r.digest k)) [
  | inl absent ↦ rw (absent, other) refl
  | inr (d, e) ↦ rw (e, other) refl
]

distinct : {o : Option String} {x d : String} → o ≡ some d → o ≡ some x → str_eq x d ≡ false → ⊥
distinct {o} {x} {d} found same other =
    let equal : x ≡ d = cc in let hit : str_eq x d ≡ true = (eq_iff x d).1 equal in ground arith

-- A token that stays was there before, and is not the one of the key.
token-delete_key :
    (k : ℕ) (r : Redis) (x : String) (o : ℕ × ℕ)
    → (delete_key k r).token x ≡ some o
    → (r.token x ≡ some o) × (r.digest k ≢ some x)
unfolding delete_key delete_token
token-delete_key k r x o e = elim (Option-cases (r.digest k)) [
  | inl absent ↦ (rw absent at e, λ same. ground arith)
  | inr (d, found) ↦ elim (Bool-cases (str_eq x d)) [
    | inl same ↦ absurd (ground arith)
    | inr other ↦ (rw (found, other) at e, λ same. distinct found same other)
  ]
]

module _ (h : Hashing) (digest : String → String) where
  create-IsMirrored :
      (id now : ℕ) (token : String) (a : ℕ) (fields : ApiKeyCreate) (s : State)
      → IsMirrored h digest s
      → IsMirrored h digest (create_api_key h digest id now token a fields true s).1
  unfolding create_api_key set_key
  create-IsMirrored id now token a fields s m =
      elim (insert_api_key-cases (new_key h id now token a fields) s.db) [
        | inl refused ↦ rw refused m
        | inr (fresh, inserted) ↦ rw inserted (λ x a' ttl e.
            let r = new_key h id now token a fields in
            let life = lifetime now fields.expires_at in
            elim (token-put_key x (digest token) id a life s.redis a' ttl e) [
              | inl before ↦
                  IsBacked-insert r _ fresh (digest-put_key (digest token) id a life s.redis)
                    (m x a' ttl before)
              | inr (same, owner, index) ↦ record {
                key = r;
                token = token;
                found = rw ==_refl refl;
                hash = refl;
                digested = same;
                active = refl;
                owner = owner;
                indexed = index ∙ ap some (sym same);
              }
            ])
      ]

  revoke-IsMirrored :
      (k a : ℕ) (s : State)
      → IsMirrored h digest s
      → IsMirrored h digest (revoke_api_key k a true s).1
  unfolding revoke_api_key get_api_key
  revoke-IsMirrored k a s m = elim (Option-cases (get_by_id_for_account k a s.db)) [
    | inl absent ↦ rw absent m
    | inr (key, found) ↦ rw found (λ x a' ttl e.
        let (before, apart) = token-delete_key key.id s.redis x (a', ttl) e in
        IsBacked-revoke key.id _ (digest-delete_key key.id s.redis)
          (λ b. elim (Bool-cases (b.key.id == key.id)) [
            | inr other ↦ other
            | inl same ↦
                absurd
                  (apart (ap s.redis.digest (sym ((==_iff b.key.id key.id).0 same)) ∙ b.indexed))
          ])
          (m x a' ttl before))
  ]

  handle-IsMirrored :
      (r : KeyRequest) (s : State)
      → IsMirrored h digest s
      → IsMirrored h digest (handle h digest r s)
  handle-IsMirrored (create id now token a fields) s m = create-IsMirrored id now token a fields s m
  handle-IsMirrored (revoke k a) s m = revoke-IsMirrored k a s m

  -- If Redis accepts tokens of active keys only, that holds again after any keys are created and
  -- revoked through the cache, failing or not: a digest that Redis gives to an account is the digest
  -- of a token whose hash is that of a row in the table, and that row is an active key of the account.
  pub relay_accepts_active_keys :
      (requests : List KeyRequest) (s : State)
      → IsMirrored h digest s
      → IsMirrored h digest (serve h digest requests s)
  relay_accepts_active_keys [] s m = m
  relay_accepts_active_keys (r ∷ rs) s m =
      relay_accepts_active_keys rs (handle h digest r s) (handle-IsMirrored r s m)
