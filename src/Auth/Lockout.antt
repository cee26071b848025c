-- ===== src/Auth/Lockout.antt =====
-- The lock on an account after failed logins: `failed_attempts` and `locked_until`.
use ark_esp_backend.Prelude.{
  ℕ, String, ◌+◌, ◌-◌, ◌≤◌, ◌<◌, ◌≡◌, refl, inl, inr, Bool, true, false, not, ◌&&◌, Option, none,
  some, List, [], ◌∷◌, ltb, ◌==◌, arith, if◌then◌else◌, Result, ok, err, Bool-cases, ==_refl, max,
}
use ark_esp_backend.Prelude.Table.{find, find-update}
use ark_esp_backend.Models.{Account, Db}
use ark_esp_backend.Secrets.{Hashing, verify_password}
use ark_esp_backend.Auth.Login.{
  LoginError, invalid_credentials, account_locked, lockout_duration, is_active_account, has_login,
  note_failure, note_success, authenticate_account, put_accounts,
}

-- `locked_until` is set and still to come
abbrev pub is_locked : Option ℕ → ℕ → Bool
is_locked none now = false
is_locked (some t) now = ltb now t

-- whether an attempt gets as far as the password
abbrev pub reaches_password : ℕ → Account → Bool
reaches_password now r = not (is_locked r.locked_until now) && is_active_account r.status_code

-- whether an attempt was let through: it was not answered with the lock
abbrev pub is_let_through : Result LoginError Account → Bool
is_let_through (err (account_locked t)) = false
is_let_through (err invalid_credentials) = true
is_let_through (ok r) = true

-- No attempt has the right password.
abbrev pub AllWrong : Hashing → String → List (String × ℕ) → Type 0
AllWrong h password_hash [] = Unit
AllWrong h password_hash ((password, now) ∷ rest) =
    (verify_password h password password_hash ≡ false) × AllWrong h password_hash rest

-- Every attempt is made in the window of `lockout_duration` that begins at `from`.
abbrev pub InWindow : ℕ → List (String × ℕ) → Type 0
InWindow from [] = Unit
InWindow from ((password, now) ∷ rest) =
    (from ≤ now) × (now < from + lockout_duration) × InWindow from rest

-- How many passwords can still be checked in the window.
budget : ℕ → Account → ℕ
budget from r =
    if is_locked r.locked_until (from + lockout_duration - 1)
    then 0
    else max 1 (5 - r.failed_attempts)

budget-note_failure :
    (from now : ℕ) (r : Account)
    → reaches_password now r ≡ true
    → from ≤ now
    → now < from + lockout_duration
    → budget from (note_failure now r) + 1 ≤ budget from r
unfolding budget note_failure
budget-note_failure from now r check low high = ground arith

module _ (h : Hashing) (login : String) where
  abbrev account_of : Db → Option Account
  account_of db = find (has_login login) db.accounts

  -- An update of the row by its id is found again under the login.
  account_of-put :
      (f : Account → Account) (r : Account) (db : Db)
      → ((x : Account) → has_login login (f x) ≡ has_login login x)
      → account_of db ≡ some r
      → account_of (put_accounts (λ x. x.id == r.id) f db) ≡ some (f r)
  account_of-put f r db keeps e =
      rw (find-update (has_login login) (λ x. x.id == r.id) f db.accounts keeps, e, ==_refl)

  module _ (password : String) (now : ℕ) (r : Account) (db : Db) (e : account_of db ≡ some r) where
    -- A locked account is refused with the end of the lock, whatever the password; nothing is written.
    pub locked_refuses :
        (t : ℕ)
        → r.locked_until ≡ some t
        → now < t
        → authenticate_account h login password now db ≡ (err (account_locked t), db)
    unfolding authenticate_account
    locked_refuses t until early = ground arith

    stopped : reaches_password now r ≡ false → (authenticate_account h login password now db).1 ≡ db
    unfolding authenticate_account
    stopped no_check = ground arith

    failed :
        reaches_password now r ≡ true
        → verify_password h password r.password_hash ≡ false
        → authenticate_account h login password now db
          ≡ (err invalid_credentials, put_accounts (λ x. x.id == r.id) (note_failure now) db)
    unfolding authenticate_account
    failed check wrong = ground arith

    pub succeeded :
        reaches_password now r ≡ true
        → verify_password h password r.password_hash ≡ true
        → authenticate_account h login password now db
          ≡ (ok (note_success now r), put_accounts (λ x. x.id == r.id) (note_success now) db)
    unfolding authenticate_account
    succeeded check right = ground arith

    locked_out :
        is_active_account r.status_code ≡ true
        → reaches_password now r ≡ false
        → is_let_through (authenticate_account h login password now db).0 ≡ false
    unfolding authenticate_account
    locked_out active no_check = ground arith

  -- A sequence of attempts, and how many of them `authenticate_account` lets through.
  unfoldable pub password_checks : List (String × ℕ) → Db → ℕ
  password_checks [] db = 0
  password_checks ((password, now) ∷ rest) db =
      (if is_let_through (authenticate_account h login password now db).0 then 1 else 0)
      + password_checks rest (authenticate_account h login password now db).1

  checks_in_budget :
      (from : ℕ) (attempts : List (String × ℕ)) (db : Db) (r : Account)
      → account_of db ≡ some r
      → is_active_account r.status_code ≡ true
      → AllWrong h r.password_hash attempts
      → InWindow from attempts
      → password_checks attempts db ≤ budget from r
  unfolding password_checks
  checks_in_budget from [] db r e active wrong window = omega arith
  checks_in_budget from ((password, now) ∷ rest) db r e active wrong window =
      elim (Bool-cases (reaches_password now r)) [
        | inl check ↦
            let after = put_accounts (λ x. x.id == r.id) (note_failure now) db in
            let again : account_of after ≡ some (note_failure now r) =
              account_of-put (note_failure now) r db (λ x. unfold note_failure in refl) e in
            let ih : password_checks rest after ≤ budget from (note_failure now r) =
              checks_in_budget from rest after (note_failure now r) again
                (unfold note_failure in active) (unfold note_failure in wrong.1) window.2 in
            rw (failed password now r db e check wrong.0)
              (omega (arith, ih, budget-note_failure from now r check window.0 window.1))
        | inr no_check ↦
            rw
              (locked_out password now r db e active no_check, stopped password now r db e no_check)
              (omega (arith, checks_in_budget from rest db r e active wrong.1 window.2))
      ]

  -- In any fifteen minutes, however many wrong passwords are tried for an active account, at most
  -- five of the attempts get any other answer than that the account is locked; the attempts may be
  -- in any order of time.
  pub at_most_five_checks :
      (from : ℕ) (attempts : List (String × ℕ)) (db : Db) (r : Account)
      → account_of db ≡ some r
      → is_active_account r.status_code ≡ true
      → AllWrong h r.password_hash attempts
      → InWindow from attempts
      → password_checks attempts db ≤ 5
  unfolding budget
  at_most_five_checks from attempts db r e active wrong window =
      let bound = checks_in_budget from attempts db r e active wrong window in ground arith

  -- The wrong password that brings the failures to five locks the account for fifteen minutes:
  -- until then every attempt, also one with the right password, is refused with the end of the lock
  -- and writes nothing.
  pub fifth_failure_locks :
      (password other : String) (now later : ℕ) (db : Db) (r : Account)
      → account_of db ≡ some r
      → reaches_password now r ≡ true
      → verify_password h password r.password_hash ≡ false
      → 4 ≤ r.failed_attempts
      → later < now + lockout_duration
      → let after = (authenticate_account h login password now db).1 in
        authenticate_account h login other later after
        ≡ (err (account_locked (now + lockout_duration)), after)
  fifth_failure_locks password other now later db r e check wrong four early =
      let after = put_accounts (λ x. x.id == r.id) (note_failure now) db in
      rw (failed password now r db e check wrong) (
        locked_refuses other later (note_failure now r) after
          (account_of-put (note_failure now) r db (λ x. unfold note_failure in refl) e)
          (now + lockout_duration) (unfold note_failure in ground arith) early)
