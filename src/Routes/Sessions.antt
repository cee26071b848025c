-- ===== src/Routes/Sessions.antt =====
-- A login by password gives a token that the next requests are taken with.
use ark_esp_backend.Prelude.{
  ℕ, String, ◌⊎◌, ◌<◌, ◌≤◌, ◌+◌, ◌*◌, ◌/◌, Result, eq_iff, ◌≡◌, ◌≢◌, refl, sym, ◌∙◌, ap, inl, inr,
  true, false, none, some, ◌==◌, arith, Bool-cases, Option-cases, ok, err, err-ne-ok, ok-injective,
  ==_refl,
}
use ark_esp_backend.Prelude.Table.{find, find-update, find_sound}
use ark_esp_backend.Prelude.Unique.{HasUniqueKeys, find_by_key}
use ark_esp_backend.Models.{Account, Db, State}
use ark_esp_backend.Secrets.{Hashing, verify_password}
use ark_esp_backend.Auth.Login.{
  authenticate_account, note_success, has_login, put_accounts, is_active_account,
}
use ark_esp_backend.Auth.Lockout.{reaches_password, succeeded}
use ark_esp_backend.Auth.Bearer.{
  Tokens, AccountClaims, claims_of, active_account, get_current_account,
  account_claims_from_payload,
}
use ark_esp_backend.Routes.Logins.{
  Signing, LoginResponse, create_account_token, login_account, login_error,
}

-- the expiry in the token: PyJWT writes `exp` in whole seconds
abbrev pub expires : Signing → ℕ → ℕ
expires g now = (now + g.lifetime * 1_000_000) / 1_000_000 * 1_000_000

-- At the time `clock`, PyJWT decodes the token of an account that was not issued in the future and
-- has not expired, and `uuid.UUID` reads what `str` wrote.
pub record Matches (g : Signing) (t : Tokens) (clock : ℕ) : Type 0 where
  pub decodes :
      (now : ℕ) (r : Account)
      → now ≤ clock
      → clock < expires g now
      → t.decode_account (create_account_token g now r)
        ≡ some (record { typ = some "account"; sub = some (g.show r.id) })
  pub reads : (id : ℕ) → t.uuid (g.show id) ≡ some id

abbrev pub account_id : Account → ℕ
account_id r = r.id

-- A login that succeeds.
record LoggedIn (h : Hashing) (login password : String) (now : ℕ) (db : Db) : Type 0 where
  row : Account
  found : find (has_login login) db.accounts ≡ some row
  active : is_active_account row.status_code ≡ true
  outcome :
      authenticate_account h login password now db
      ≡ (ok (note_success now row), put_accounts (λ x. x.id == row.id) (note_success now) db)

module _ (h : Hashing) (login password : String) (now : ℕ) (db : Db) (x : Account) where
  no_check_fails :
      (r : Account)
      → find (has_login login) db.accounts ≡ some r
      → reaches_password now r ≡ false
      → (authenticate_account h login password now db).0 ≢ ok x
  unfolding authenticate_account
  no_check_fails r found unreached done = ground arith

  wrong_fails :
      (r : Account)
      → find (has_login login) db.accounts ≡ some r
      → reaches_password now r ≡ true
      → verify_password h password r.password_hash ≡ false
      → (authenticate_account h login password now db).0 ≢ ok x
  unfolding authenticate_account
  wrong_fails r found reached wrong done = ground arith

  nobody_fails :
      find (has_login login) db.accounts ≡ none
      → (authenticate_account h login password now db).0 ≢ ok x
  unfolding authenticate_account
  nobody_fails absent done = ground arith

  logged_in :
      (authenticate_account h login password now db).0 ≡ ok x → LoggedIn h login password now db
  logged_in done = elim (Option-cases (find (has_login login) db.accounts)) [
    | inl absent ↦ absurd (nobody_fails absent done)
    | inr (r, found) ↦ elim (Bool-cases (reaches_password now r)) [
      | inr unreached ↦ absurd (no_check_fails r found unreached done)
      | inl reached ↦ elim (Bool-cases (verify_password h password r.password_hash)) [
        | inr wrong ↦ absurd (wrong_fails r found reached wrong done)
        | inl right ↦ record {
          row = r;
          found = found;
          active = ground arith;
          outcome = succeeded h login password now r db found reached right;
        }
      ]
    ]
  ]

-- The row of the login is found again by its id, and may act.
active_after :
    (login : String) (now : ℕ) (r : Account) (db : Db)
    → HasUniqueKeys account_id db.accounts
    → find (has_login login) db.accounts ≡ some r
    → is_active_account r.status_code ≡ true
    → active_account r.id (put_accounts (λ x. x.id == r.id) (note_success now) db)
      ≡ some (note_success now r)
unfolding active_account note_success
active_after login now r db u found active =
    let own = find_by_key account_id (has_login login) db.accounts r u found in
    let kept = find_sound (has_login login) db.accounts r found in
    rw
      (
        find-update (λ x. x.id == r.id) (λ x. x.id == r.id) (note_success now) db.accounts
            (λ x. unfold note_success in refl),
        own,
        ==_refl,
      )
      (ground arith)

accepted :
    (h : Hashing) (g : Signing) (t : Tokens) (r : Account) (now later : ℕ) (db : Db)
    → Matches g t later
    → now ≤ later
    → later < expires g now
    → active_account r.id db ≡ some r
    → get_current_account h t (some (create_account_token g now r)) later db
      ≡ (ok (claims_of r), db)
unfolding get_current_account account_claims_from_payload
accepted h g t r now later db m begun early active =
    rw (m.decodes now r begun early, m.reads r.id, active) refl

Result-cases : {E A : Type 0} (r : Result E A) → ((e : E) × (r ≡ err e)) ⊎ ((a : A) × (r ≡ ok a))
Result-cases (ok a) = inr (a, refl)
Result-cases (err e) = inl (e, refl)

module _ (h : Hashing) (g : Signing) (login password : String) (now : ℕ) (s : State) where
  login_authenticates :
      (response : LoginResponse)
      → (login_account g h login password now s).0 ≡ ok response
      → LoggedIn h login password now s.db
  unfolding login_account
  login_authenticates response done =
      elim (Result-cases (authenticate_account h login password now s.db).0) [
        | inl (e, failed) ↦ absurd (err-ne-ok (login_error e) response (rw failed at done))
        | inr (x, authentic) ↦ logged_in h login password now s.db x authentic
      ]

  login_outcome :
      (l : LoggedIn h login password now s.db)
      → login_account g h login password now s ≡ (
        ok (record {
          access_token = create_account_token g now (note_success now l.row);
          expires_in = g.lifetime;
        }),
        record s { db = put_accounts (λ x. x.id == l.row.id) (note_success now) s.db },
      )
  unfolding login_account
  login_outcome l = rw l.outcome refl

  -- Where account ids are unique and tokens are signed and read by one pair of keys, the token of a
  -- login that succeeds is taken, from the login until the whole second in which its lifetime ends,
  -- for the account of that login, if the tables are as the login left them.
  pub login_token_is_accepted :
      (t : Tokens) (later : ℕ)
      → Matches g t later
      → now ≤ later
      → later < expires g now
      → HasUniqueKeys account_id s.db.accounts
      → (response : LoginResponse) (s' : State)
      → login_account g h login password now s ≡ (ok response, s')
      → (claims : AccountClaims) × (get_current_account h t (some response.access_token) later s'.db
          ≡ (ok claims, s'.db))
        × (claims.login ≡ login)
  login_token_is_accepted t later m begun early u response s' done =
      let l = login_authenticates response (ap (λ r. r.0) done) in
      let both = sym (login_outcome l) ∙ done in
      let token = ok-injective (ap (λ r. r.0) both) in
      let tables : put_accounts (λ x. x.id == l.row.id) (note_success now) s.db ≡ s'.db =
        ap (λ r. r.1.db) both in
      let kept = find_sound (has_login login) s.db.accounts l.row l.found in
      (
        claims_of (note_success now l.row),
        rw (← token, ← tables)
            (accepted h g t (note_success now l.row) now later _ m begun early
              (unfold note_success in active_after login now l.row s.db u l.found l.active)),
        unfold note_success in same_login l.row kept,
      )
    where
      same_login : (r : Account) → has_login login r ≡ true → r.login ≡ login
      same_login r kept = ground (arith, (eq_iff r.login login).0)
