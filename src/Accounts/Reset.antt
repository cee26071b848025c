-- ===== src/Accounts/Reset.antt =====
-- backend_python/src/services/password_reset_service.py. The two log lines are not modelled.
use ark_esp_backend.Prelude.{
  ℕ, String, ◌+◌, ◌*◌, ◌≡◌, ◌⊎◌, refl, sym, ◌∙◌, ap, inl, inr, Bool, true, false, ◌||◌, Option,
  none, some, leb, ◌==◌, ok, err, Action, gets, or_raise, raise_if, modify, pure, ◌>>=◌, ◌>>◌,
  Bool-cases, Option-cases, ==_refl, is_some, str_eq, err-ne-ok, ok-injective,
}
use ark_esp_backend.Prelude.Table.{update, find-update}
use ark_esp_backend.Models.{Account, AccountPasswordResetToken, Db}
use ark_esp_backend.Secrets.{
  Hashing, IsSound, hash_password, verify_password, hash_token, verify_password-hash_password,
}
use ark_esp_backend.Accounts.Repo.{get_reset_by_token_hash_for_update, get_account}
use ark_esp_backend.Accounts.Repo

pub data ResetError : Type 0 where
  account_not_found invalid_reset_token integrity : ResetError

-- one hour
abbrev pub reset_token_ttl : ℕ
reset_token_ttl = 60 * 60 * 1_000_000

abbrev settle : Option Db → Action Db ResetError Unit
settle none db = (err integrity, db)
settle (some after) db = (ok tt, after)

abbrev try_insert : (Db → Option Db) → Action Db ResetError Unit
try_insert f db = settle (f db) db

-- `row.used_at is not None or row.expires_at <= now`
abbrev pub is_spent : ℕ → AccountPasswordResetToken → Bool
is_spent now row = is_some row.used_at || leb row.expires_at now

abbrev pub mark_used : ℕ → AccountPasswordResetToken → AccountPasswordResetToken
mark_used now row = record row { used_at = some now }

-- the writes to the account in `confirm_reset`
abbrev pub reset_password : String → Account → Account
reset_password password_hash r = record r {
  password_hash = password_hash;
  failed_attempts = 0;
  locked_until = none;
}

module _ (h : Hashing) where
  unfoldable pub issue_reset_token :
      (id now : ℕ)
      → String
      → (account_id admin_id : ℕ) → Action Db ResetError (AccountPasswordResetToken × String)
  issue_reset_token id now token account_id admin_id = do
    found ← gets (get_account account_id)
    or_raise found account_not_found
    let row : AccountPasswordResetToken = record {
      id = id;
      account_id = account_id;
      token_hash = hash_token h token;
      created_by_admin_id = admin_id;
      expires_at = now + reset_token_ttl;
      used_at = none;
      created_at = now;
    }
    try_insert (Repo.insert_reset_token row)
    pure (row, token)

  unfoldable pub confirm_reset : ℕ → (salt token new_password : String) → Action Db ResetError ℕ
  confirm_reset now salt token new_password = do
    found ← gets (get_reset_by_token_hash_for_update (hash_token h token))
    row ← or_raise found invalid_reset_token
    raise_if (is_spent now row) invalid_reset_token
    owner ← gets (get_account row.account_id)
    account ← or_raise owner invalid_reset_token
    modify (λ db. record db {
      accounts =
          update (λ r. r.id == account.id) (reset_password (hash_password h salt new_password))
            db.accounts;
      reset_tokens = update (λ r. r.id == row.id) (mark_used now) db.reset_tokens;
    })
    pure row.account_id

module _ (h : Hashing) (now : ℕ) (salt token new_password : String) (db : Db) where
  abbrev token_row : Db → Option AccountPasswordResetToken
  token_row = get_reset_by_token_hash_for_update (hash_token h token)

  abbrev confirmed : AccountPasswordResetToken → Account → Db
  confirmed row account = record db {
    accounts =
        update (λ r. r.id == account.id) (reset_password (hash_password h salt new_password))
          db.accounts;
    reset_tokens = update (λ r. r.id == row.id) (mark_used now) db.reset_tokens;
  }

  pub record IsConfirmed : Type 0 where
    pub row : AccountPasswordResetToken
    pub account : Account
    pub found : token_row db ≡ some row
    pub unspent : is_spent now row ≡ false
    pub owner : get_account row.account_id db ≡ some account
    pub outcome :
        confirm_reset h now salt token new_password db ≡ (ok row.account_id, confirmed row account)

  confirm_reset-cases :
      (confirm_reset h now salt token new_password db ≡ (err invalid_reset_token, db)) ⊎ IsConfirmed
  unfolding confirm_reset
  confirm_reset-cases = elim (Option-cases (token_row db)) [
    | inl absent ↦ inl (rw absent)
    | inr (row, found) ↦ elim (Bool-cases (is_spent now row)) [
      | inl spent ↦ inl (rw (found, spent))
      | inr unspent ↦ elim (Option-cases (get_account row.account_id db)) [
        | inl absent ↦ inl (rw (found, unspent, absent))
        | inr (account, owner) ↦ inr (record {
          row = row;
          account = account;
          found = found;
          unspent = unspent;
          owner = owner;
          outcome = rw (found, unspent, owner);
        })
      ]
    ]
  ]

  used_row : (c : IsConfirmed) → token_row (confirmed c.row c.account) ≡ some (mark_used now c.row)
  used_row c = rw (
    find-update (λ x. str_eq x.token_hash (hash_token h token)) (λ x. x.id == c.row.id)
        (mark_used now) db.reset_tokens (λ x. refl),
    c.found,
    ==_refl,
  )

  -- A reset token that was confirmed once is refused ever after, whatever the new password, and
  -- nothing is written.
  pub reset_token_works_once :
      {account_id : ℕ} (db' : Db)
      → confirm_reset h now salt token new_password db ≡ (ok account_id, db')
      → (later : ℕ) (salt' other : String)
      → confirm_reset h later salt' token other db' ≡ (err invalid_reset_token, db')
  unfolding confirm_reset
  reset_token_works_once {account_id} db' done later salt' other = elim confirm_reset-cases [
    | inl failed ↦
        absurd (err-ne-ok invalid_reset_token account_id (ap (λ t. t.0) (sym failed ∙ done)))
    | inr c ↦ rw (sym (ap (λ t. t.1) (sym c.outcome ∙ done))) (rw (used_row c))
  ]

  -- A reset that succeeds lifts a lock and clears the failures: the row of the account has the hash
  -- of the new password, no failed attempt and no lock, and the new password verifies.
  pub confirm_reset_unlocks :
      IsSound h
      → {account_id : ℕ} (db' : Db)
      → confirm_reset h now salt token new_password db ≡ (ok account_id, db')
      → (r : Account) × (get_account account_id db' ≡ some r)
        × (r.failed_attempts ≡ 0)
        × (r.locked_until ≡ none)
        × (verify_password h new_password r.password_hash ≡ true)
  confirm_reset_unlocks sound {account_id} db' done = elim confirm_reset-cases [
    | inl failed ↦
        absurd (err-ne-ok invalid_reset_token account_id (ap (λ t. t.0) (sym failed ∙ done)))
    | inr c ↦
        let both = sym c.outcome ∙ done in
        let same : c.row.account_id ≡ account_id = ok-injective (ap (λ t. t.0) both) in
        (
          reset_password (hash_password h salt new_password) c.account,
          ap (get_account account_id) (sym (ap (λ t. t.1) both)) ∙ rw (← same) (new_row c),
          refl,
          refl,
          verify_password-hash_password h sound salt new_password,
        )
  ]
    where
      new_row :
          (c : IsConfirmed)
          → get_account c.row.account_id (confirmed c.row c.account)
            ≡ some (reset_password (hash_password h salt new_password) c.account)
      new_row c = rw (
        find-update (λ r. r.id == c.row.account_id) (λ r. r.id == c.account.id)
            (reset_password (hash_password h salt new_password)) db.accounts (λ x. refl),
        c.owner,
        ==_refl,
      )
