-- ===== src/Auth/Claims.antt =====
-- What an accepted token says of the row in the database, at the time of the request.
use ark_esp_backend.Prelude.{
  ℕ, String, ◌≡◌, ◌<◌, ◌⊎◌, ◌&&◌, List, [], ◌∷◌, str_eq, and_true, eq_iff, refl, sym, ◌∙◌, ap, inl,
  inr, Bool, true, false, not, some, ◌==◌, arith, ok, Bool-cases, Option-cases, err-ne-ok,
  ok-injective, or_raise-ok, raise_if-ok,
}
use ark_esp_backend.Prelude.Table.{find, find_sound}
use ark_esp_backend.Models.{Account, Admin, ApiKey, ApiKeyStatus, Db}
use ark_esp_backend.Secrets.{Hashing, hash_token}
use ark_esp_backend.Auth.Login.{is_active_admin}
use ark_esp_backend.Auth.Bearer.{
  Tokens, unauthorized, AccountClaims, AdminClaims, is_usable, get_active_by_hash, active_account,
  account_claims_from_api_key, account_claims_from_payload, get_current_account, get_current_admin,
  claims_of, is_past, is_active_key, subject, says,
}

-- The account of the claims stands in the database, active and not deleted, under that login.
pub record Stands (db : Db) (c : AccountClaims) : Type 0 where
  pub row : Account
  pub found : find (λ r. r.id == c.account_id) db.accounts ≡ some row
  pub usable : is_usable row ≡ true
  pub login : row.login ≡ c.login

module _ (db : Db) where
  active_account_row :
      (id : ℕ) (r : Account)
      → active_account id db ≡ some r
      → (find (λ x. x.id == id) db.accounts ≡ some r) × (is_usable r ≡ true) × (r.id ≡ id)
  unfolding active_account
  active_account_row id r e = ground (arith, find_sound (λ y. y.id == id) db.accounts r)

  Stands-claims_of :
      (id : ℕ) (r : Account) → active_account id db ≡ some r → Stands db (claims_of r)
  Stands-claims_of id r e =
      let (found, usable, key) = active_account_row id r e in
      record {
        row = r;
        found = ap (λ (k : ℕ). find (λ y. y.id == k) db.accounts) key ∙ found;
        usable = usable;
        login = refl;
      }

abbrev pub IsIn : ApiKey → List ApiKey → Type 0
IsIn key [] = ⊥
IsIn key (r ∷ rs) = (r ≡ key) ⊎ IsIn key rs

-- What stands behind a token that is an API key: a row with the hash of the token, which is active
-- and does not end before `now`, and its account.
pub record KeyStands (h : Hashing) (token : String) (now : ℕ) (db : Db) (c : AccountClaims)
    : Type 0 where
  pub key : ApiKey
  pub stored : IsIn key db.api_keys
  pub hash : key.key_hash ≡ hash_token h token
  pub active : key.status_code ≡ ApiKeyStatus.active
  pub current : (t : ℕ) → key.expires_at ≡ some t → now < t
  pub account : Stands db c
  pub owner : key.account_id ≡ c.account_id

find-IsIn :
    (p : ApiKey → Bool) (rs : List ApiKey) (key : ApiKey) → find p rs ≡ some key → IsIn key rs
find-IsIn p [] key e = cc
find-IsIn p (r ∷ rs) key e = elim (Bool-cases (p r)) [
  | inl hit ↦ let same : some r ≡ some key = rw hit at e in inl cc
  | inr miss ↦ inr (find-IsIn p rs key (rw miss at e))
]

is_active_key-active : (s : ApiKeyStatus) → is_active_key s ≡ true → s ≡ ApiKeyStatus.active
is_active_key-active ApiKeyStatus.active e = refl
is_active_key-active ApiKeyStatus.revoked e = cc

module _ (token_hash : String) (db : Db) (key : ApiKey)
    (e : get_active_by_hash token_hash db ≡ some key) where
  active_by_hash :
      IsIn key db.api_keys × (key.key_hash ≡ token_hash) × (key.status_code ≡ ApiKeyStatus.active)
  unfolding get_active_by_hash
  active_by_hash =
      let (a, b) = and_true (str_eq key.key_hash token_hash) (is_active_key key.status_code) (
        find_sound (λ r. str_eq r.key_hash token_hash && is_active_key r.status_code) db.api_keys
          key e) in
      (
        find-IsIn _ db.api_keys key e,
        (eq_iff key.key_hash token_hash).0 a,
        is_active_key-active key.status_code b,
      )

module _ (h : Hashing) (token : String) (now : ℕ) (db : Db) (c : AccountClaims) where
  -- An API key that is accepted is a row of the table with the hash of the token, is active and
  -- has not expired, and the account that it belongs to is active and not deleted.
  pub api_key-KeyStands :
      (account_claims_from_api_key h token now db).0 ≡ ok c → KeyStands h token now db c
  unfolding account_claims_from_api_key
  api_key-KeyStands done = elim (Option-cases (get_active_by_hash (hash_token h token) db)) [
    | inl absent ↦ absurd (err-ne-ok unauthorized c (rw absent at done))
    | inr (key, found) ↦ elim (Bool-cases (is_past now key.expires_at)) [
      | inl past ↦ absurd (err-ne-ok unauthorized c (rw (found, past) at done))
      | inr current ↦ elim (Option-cases (active_account key.account_id db)) [
        | inl absent ↦ absurd (err-ne-ok unauthorized c (rw (found, current, absent) at done))
        | inr (r, e) ↦
            let same : claims_of r ≡ c = ok-injective (rw (found, current, e) at done) in
            let (stored, hash, active) = active_by_hash (hash_token h token) db key found in
            record {
              key = key;
              stored = stored;
              hash = hash;
              active = active;
              current = λ t ends. ground (arith, ends, current);
              account = rw (← same) (Stands-claims_of db key.account_id r e);
              owner =
                  sym (active_account_row db key.account_id r e).2
                  ∙ ap (λ (x : AccountClaims). x.account_id) same;
            }
      ]
    ]
  ]

  -- Whether by a JWT or by an API key, a request is only ever taken to come from an account that is
  -- active and not deleted in the database at that moment, and the claims give its login.
  pub get_current_account-Stands :
      (t : Tokens) → (get_current_account h t (some token) now db).0 ≡ ok c → Stands db c
  unfolding get_current_account account_claims_from_payload
  get_current_account-Stands t done = elim (Option-cases (t.decode_account token)) [
    | inl opaque ↦ (api_key-KeyStands (rw opaque at done)).account
    | inr (p, decoded) ↦ elim (Bool-cases (says "account" p.typ)) [
      | inr other ↦ absurd (err-ne-ok unauthorized c (rw (decoded, other) at done))
      | inl account ↦ elim (Option-cases (subject t.uuid p.sub)) [
        | inl absent ↦ absurd (err-ne-ok unauthorized c (rw (decoded, account, absent) at done))
        | inr (id, sub) ↦ elim (Option-cases (active_account id db)) [
          | inl absent ↦
              absurd (err-ne-ok unauthorized c (rw (decoded, account, sub, absent) at done))
          | inr (r, e) ↦
              let same : claims_of r ≡ c = ok-injective (rw (decoded, account, sub, e) at done) in
              rw (← same) (Stands-claims_of db id r e)
        ]
      ]
    ]
  ]

not-injective : {b : Bool} → not b ≡ false → b ≡ true
not-injective {b} h = ground arith

-- The role and the name in the claims of an admin are those of the row, which is active.
pub get_current_admin-current :
    (t : Tokens) (token : String) (db : Db) (c : AdminClaims)
    → (get_current_admin t (some token) db).0 ≡ ok c
    → (r : Admin) × (find (λ x. x.id == c.admin_id) db.admins ≡ some r)
      × (is_active_admin r.status_code ≡ true)
      × (r.role_code ≡ c.role_code)
      × (r.username ≡ c.username)
unfolding get_current_admin
get_current_admin-current t token db c done =
    let (p, decoded, d₁) = or_raise-ok _ unauthorized db (t.decode_admin token) done in
    let (admin, d₂) = raise_if-ok _ unauthorized db (not (says "admin" p.typ)) d₁ in
    let (id, sub, d₃) = or_raise-ok _ unauthorized db (subject t.uuid p.sub) d₂ in
    let (r, found, d₄) = or_raise-ok _ unauthorized db (find (λ x. x.id == id) db.admins) d₃ in
    let (active, d₅) = raise_if-ok _ unauthorized db (not (is_active_admin r.status_code)) d₄ in
    let same = ok-injective d₅ in
    let key : r.id ≡ id = ground (arith, find_sound (λ x. x.id == id) db.admins r found) in
    (
      r,
      ap (λ (k : ℕ). find (λ x. x.id == k) db.admins)
            (sym (ap (λ (x : AdminClaims). x.admin_id) same) ∙ key)
          ∙ found,
      not-injective active,
      ap (λ (x : AdminClaims). x.role_code) same,
      ap (λ (x : AdminClaims). x.username) same,
    )
