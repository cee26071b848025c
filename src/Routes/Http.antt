-- ===== src/Routes/Http.antt =====
-- HTTPException, and who may call: the dependencies `get_current_account` and `get_current_admin`.
use ark_esp_backend.Prelude.{ℕ, String, Option, Action, Result, ok, err, ◌>>=◌}
use ark_esp_backend.Models.{Db, State}
use ark_esp_backend.Secrets.{Hashing}
use ark_esp_backend.Auth.Bearer.{
  Tokens, AccountClaims, AdminClaims, get_current_account, get_current_admin,
}

-- the status, and the code in the body; the message and the details are left out
pub record HttpError : Type 0 where
  pub status : ℕ
  pub code : String

abbrev pub problem : ℕ → String → HttpError
problem status code = record { status = status; code = code }

-- an exception that no route catches
abbrev pub internal : HttpError
internal = problem 500 "internal"

abbrev pub account_unauthorized : HttpError
account_unauthorized = problem 401 "invalid_account_token"

abbrev pub admin_unauthorized : HttpError
admin_unauthorized = problem 401 "invalid_admin_token"

abbrev raised : {E A : Type 0} → (E → HttpError) → Result E A → Result HttpError A
raised f (ok a) = ok a
raised f (err e) = err (f e)

-- the `except` clauses of a route
abbrev pub handling : {S E A : Type 0} → (E → HttpError) → Action S E A → Action S HttpError A
handling f m s = let (r, s') = m s in (raised f r, s')

-- a service that uses the database alone
abbrev pub on_db : {E A : Type 0} → Action Db E A → Action State E A
on_db m s = let (r, db) = m s.db in (r, record s { db = db })

module _ {A : Type 0} (t : Tokens) where
  unfoldable pub with_account :
      Hashing
      → Option String
      → ℕ
      → (AccountClaims → Action State HttpError A)
      → Action State HttpError A
  with_account h credentials now route = do
    claims ← handling (λ e. account_unauthorized) (on_db (get_current_account h t credentials now))
    route claims

  unfoldable pub with_admin :
      Option String → (AdminClaims → Action State HttpError A) → Action State HttpError A
  with_admin credentials route = do
    claims ← handling (λ e. admin_unauthorized) (on_db (get_current_admin t credentials))
    route claims
