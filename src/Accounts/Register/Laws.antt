-- ===== src/Accounts/Register/Laws.antt =====
-- Registration by an activation key: all or nothing, once for each key, and good for a login.
use ark_esp_backend.Prelude.{
  ℕ, String, ◌≡◌, refl, sym, ◌∙◌, ap, ◌⊎◌, inl, inr, Bool, true, false, ◌||◌, is_some, Option, none,
  some, ◌==◌, arith, ok, err, Bool-cases, Option-cases, ==_refl, err-ne-ok, ok-injective, eq_refl,
  str_eq, ◌∷◌,
}
use ark_esp_backend.Prelude.Int.{pos, ◌+ℤ◌}
use ark_esp_backend.Prelude.Table.{find, update, find-update, find_sound}
use ark_esp_backend.Models.{AccountStatus, Account, ActivationKeyStatus, ActivationKey, Db}
use ark_esp_backend.Secrets.{
  Hashing, IsSound, hash_password, hash_token, verify_password-hash_password,
}
use ark_esp_backend.Auth.Login.{authenticate_account, has_login, note_success}
use ark_esp_backend.Auth.Lockout.{succeeded}
use ark_esp_backend.Accounts.Repo
use ark_esp_backend.Accounts.Repo.{
  get_key_by_token_hash_for_update, get_activation_key_by_id, get_account,
}
use ark_esp_backend.Accounts.Register.{
  AccountError, invalid_activation_key, conflict, is_issued, new_account, redeem, register_account,
}

redeemed_refused :
    (h : Hashing) (activation_key : String) (db : Db) (key : ActivationKey)
    → get_key_by_token_hash_for_update (hash_token h activation_key) db ≡ some key
    → is_issued key.status_code ≡ false
    → (id now : ℕ) (salt login password : String)
    → register_account h id now salt login password activation_key db
      ≡ (err invalid_activation_key, db)
unfolding register_account
redeemed_refused h activation_key db key found used id now salt login password = rw (found, used)

is_issued-issued : (s : ActivationKeyStatus) → is_issued s ≡ true → s ≡ ActivationKeyStatus.issued
is_issued-issued ActivationKeyStatus.issued e = refl
is_issued-issued ActivationKeyStatus.redeemed e = cc

-- The id is that of an account, or the login that of an account that is not deleted.
abbrev pub is_taken : ℕ → String → Db → Bool
is_taken id login db =
    is_some (find (λ x. x.id == id) db.accounts) || is_some (find (has_login login) db.accounts)

insert-cases :
    (r : Account) (db : Db)
    → ((Repo.insert r db ≡ none) × (is_taken r.id r.login db ≡ true))
      ⊎ (Repo.insert r db ≡ some (record db { accounts = r ∷ db.accounts }))
unfolding Repo.insert
insert-cases r db = elim (Bool-cases (is_taken r.id r.login db)) [
  | inl taken ↦ inl (rw taken refl, taken)
  | inr free ↦ inr (rw free refl)
]

module _ (h : Hashing) (id now : ℕ) (salt login password activation_key : String) (db : Db) where
  abbrev pub key_row : Db → Option ActivationKey
  key_row = get_key_by_token_hash_for_update (hash_token h activation_key)

  abbrev pub row : ActivationKey → Account
  row key = new_account id now login (hash_password h salt password) key

  -- the database after a registration
  abbrev pub registered : ActivationKey → Db
  registered key = record db {
    accounts = row key ∷ db.accounts;
    activation_keys = update (λ r. r.id == key.id) (redeem now id) db.activation_keys;
  }

  -- What a registration that succeeds has done.
  pub record IsRegistered : Type 0 where
    pub key : ActivationKey
    pub found : key_row db ≡ some key
    pub issued : is_issued key.status_code ≡ true
    pub outcome :
        register_account h id now salt login password activation_key db
        ≡ (ok (row key), registered key)

  -- Why a registration fails, and with which error.
  pub data IsReason : AccountError → Type 0 where
    unknown_key : key_row db ≡ none → IsReason invalid_activation_key
    used_key :
        (key : ActivationKey)
        → key_row db ≡ some key
        → is_issued key.status_code ≡ false
        → IsReason invalid_activation_key
    taken : is_taken id login db ≡ true → IsReason conflict

  -- A registration that fails has a reason, and writes nothing.
  pub record IsRefused : Type 0 where
    pub error : AccountError
    pub outcome : register_account h id now salt login password activation_key db ≡ (err error, db)
    pub reason : IsReason error

  pub register_account-cases : IsRefused ⊎ IsRegistered
  unfolding register_account
  register_account-cases = elim (Option-cases (key_row db)) [
    | inl absent ↦ inl (record {
      error = invalid_activation_key;
      outcome = rw absent;
      reason = unknown_key absent;
    })
    | inr (key, found) ↦ elim (Bool-cases (is_issued key.status_code)) [
      | inr used ↦ inl (record {
        error = invalid_activation_key;
        outcome = rw (found, used);
        reason = used_key key found used;
      })
      | inl issued ↦ elim (insert-cases (row key) db) [
        | inl (refused, other) ↦ inl (record {
          error = conflict;
          outcome = rw (found, issued, refused);
          reason = taken other;
        })
        | inr inserted ↦ inr (record {
          key = key;
          found = found;
          issued = issued;
          outcome = rw (found, issued, inserted);
        })
      ]
    ]
  ]

  redeemed_row : (r : IsRegistered) → key_row (registered r.key) ≡ some (redeem now id r.key)
  redeemed_row r = rw (
    find-update (λ x. str_eq x.token_hash (hash_token h activation_key)) (λ x. x.id == r.key.id)
        (redeem now id) db.activation_keys (λ x. unfold redeem in refl),
    r.found,
    ==_refl,
  )

  -- what a registration with `key` leaves: the account `r`, and the database
  pub record IsRegistration (key : ActivationKey) (r : Account) (db' : Db) : Type 0 where
    pub id_given : r.id ≡ id
    pub login_given : r.login ≡ login
    pub password_hashed : r.password_hash ≡ hash_password h salt password
    pub until : r.expires_at ≡ some (pos now +ℤ key.duration)
    pub active : r.status_code ≡ AccountStatus.active
    pub present : r.deleted_at ≡ none
    pub no_failures : r.failed_attempts ≡ 0
    pub unlocked : r.locked_until ≡ none
    pub ungrouped : r.active_group_id ≡ none
    pub accounts : db'.accounts ≡ r ∷ db.accounts
    pub after : ActivationKey
    pub after_found : key_row db' ≡ some after
    pub after_status : after.status_code ≡ ActivationKeyStatus.redeemed
    pub after_time : after.redeemed_at ≡ some now
    pub after_account : after.redeemed_by_account_id ≡ some id
    pub other_keys :
        (j : ℕ)
        → (key.id == j) ≡ false
        → get_activation_key_by_id j db' ≡ get_activation_key_by_id j db
    pub groups : db'.groups ≡ db.groups
    pub members : db'.members ≡ db.members
    pub invites : db'.invites ≡ db.invites
    pub api_keys : db'.api_keys ≡ db.api_keys
    pub reset_tokens : db'.reset_tokens ≡ db.reset_tokens
    pub admins : db'.admins ≡ db.admins

  kept_key :
      (key : ActivationKey) (j : ℕ)
      → (key.id == j) ≡ false
      → get_activation_key_by_id j (registered key) ≡ get_activation_key_by_id j db
  kept_key key j other =
      find-update (λ r. r.id == j) (λ r. r.id == key.id) (redeem now id) db.activation_keys
        (λ x. unfold redeem in refl)
      ∙ elim (Option-cases (get_activation_key_by_id j db)) [
        | inl absent ↦ rw absent refl
        | inr (x, found) ↦
            let hit = find_sound (λ r. r.id == j) db.activation_keys x found in
            let apart : (x.id == key.id) ≡ false = ground arith in rw (found, apart) refl
      ]

  registered-IsRegistration :
      (r : IsRegistered) → IsRegistration r.key (row r.key) (registered r.key)
  registered-IsRegistration r = record {
    id_given = refl;
    login_given = refl;
    password_hashed = refl;
    until = refl;
    active = refl;
    present = refl;
    no_failures = refl;
    unlocked = refl;
    ungrouped = refl;
    accounts = refl;
    after = redeem now id r.key;
    after_found = redeemed_row r;
    after_status = unfold redeem in refl;
    after_time = unfold redeem in refl;
    after_account = unfold redeem in refl;
    other_keys = kept_key r.key;
    groups = refl;
    members = refl;
    invites = refl;
    api_keys = refl;
    reset_tokens = refl;
    admins = refl;
  }

  -- A registration that fails writes nothing, and fails because there is no key under the hash of the
  -- activation key, because that key is used, or because the id or the login is taken. One that
  -- succeeds found an issued key under that hash. It returns and adds an account with the id, the login
  -- and the hash of the password, which is active, unlocked and in no group, and ends the duration of
  -- the key after now. The key is then redeemed, now and by that account. Every other key and table is
  -- as before.
  pub register_account_atomic :
      ((e : AccountError) × (register_account h id now salt login password activation_key db
          ≡ (err e, db))
        × IsReason e)
      ⊎ ((key : ActivationKey) × (r : Account) × (db' : Db) × (key_row db ≡ some key)
          × (key.status_code ≡ ActivationKeyStatus.issued)
          × (register_account h id now salt login password activation_key db ≡ (ok r, db'))
          × IsRegistration key r db')
  register_account_atomic = elim register_account-cases [
    | inl r ↦ inl (r.error, r.outcome, r.reason)
    | inr r ↦ inr (
      r.key,
      row r.key,
      registered r.key,
      r.found,
      is_issued-issued r.key.status_code r.issued,
      r.outcome,
      registered-IsRegistration r,
    )
  ]

  -- After a registration that succeeds, the same activation key registers nobody else: whatever the
  -- second request names, it fails and writes nothing.
  pub activation_key_works_once :
      {r : Account} (db' : Db)
      → register_account h id now salt login password activation_key db ≡ (ok r, db')
      → (id' now' : ℕ) (salt' login' password' : String)
      → register_account h id' now' salt' login' password' activation_key db'
        ≡ (err invalid_activation_key, db')
  activation_key_works_once {r} db' done id' now' salt' login' password' =
      elim register_account-cases [
        | inl f ↦ absurd (err-ne-ok f.error r (ap (λ t. t.0) (sym f.outcome ∙ done)))
        | inr reg ↦
            let after : registered reg.key ≡ db' = ap (λ t. t.1) (sym reg.outcome ∙ done) in
            rw (← after) (
              redeemed_refused h activation_key (registered reg.key) (redeem now id reg.key)
                (redeemed_row reg) (unfold redeem in refl) id' now' salt' login' password')
      ]

  -- Whoever has registered can log in: right after a registration that succeeds, the login and the
  -- password of the request authenticate the new account, at any time.
  pub registered_logs_in :
      IsSound h
      → {r : Account} (db' : Db)
      → register_account h id now salt login password activation_key db ≡ (ok r, db')
      → (later : ℕ)
      → (authenticate_account h login password later db').0 ≡ ok (note_success later r)
  registered_logs_in sound {r} db' done later = elim register_account-cases [
    | inl f ↦ absurd (err-ne-ok f.error r (ap (λ t. t.0) (sym f.outcome ∙ done)))
    | inr reg ↦
        let both = sym reg.outcome ∙ done in
        let after : registered reg.key ≡ db' = ap (λ t. t.1) both in
        let same : row reg.key ≡ r = ok-injective (ap (λ t. t.0) both) in
        rw (← after) (
          ap (λ t. t.0)
            (succeeded h login password later (row reg.key) (registered reg.key) (rw eq_refl) refl
              (verify_password-hash_password h sound salt password))
          ∙ ap (λ (x : Account). ok (note_success later x)) same)
  ]
