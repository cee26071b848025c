-- ===== src/Topology/Session.antt =====
-- A database session: what is written is flushed, and is in the database for good once it is
-- committed. An exception that leaves the session, and `rollback`, take back what is not committed.
use ark_esp_backend.Prelude.{
  ℕ, String, Bool, true, false, not, ◌&&◌, Option, none, some, List, [], ◌∷◌, ◌==◌, str_eq,
  if◌then◌else◌, is_some, Action, Result, ok, err,
}
use ark_esp_backend.Prelude.Table.{find}
use ark_esp_backend.Models.{Account, Server, Tribe, World}

-- `value_error` is what the Python code raises or lets through; `data_error` a value that Postgres
-- cannot read; `multiple_results` is MultipleResultsFound; `overflow` an OverflowError.
pub data SessionError : Type 0 where
  value_error data_error integrity multiple_results overflow : SessionError

pub record Tx (W : Type 0) : Type 0 where
  pub db : World W
  pub saved : World W

abbrev pub Work : Type 0 → Type 0 → Type 0
Work W A = Action (Tx W) SessionError A

-- the unique index uq_tribe_server_name
abbrev pub is_tribe : ℕ → String → Tribe → Bool
is_tribe server_id name r = r.server_id == server_id && str_eq r.name name

abbrev pub names_are_unique : List Tribe → Bool
names_are_unique [] = true
names_are_unique (r ∷ rs) =
    not (is_some (find (is_tribe r.server_id r.name) rs)) && names_are_unique rs

-- the foreign key of the columns that name the account of an observer
abbrev pub is_reporter : {W : Type 0} → Option ℕ → World W → Bool
is_reporter none w = true
is_reporter (some id) w = is_some (find (λ (r : Account). r.id == id) w.accounts)

-- the foreign keys to a server and to a tribe, where NULL names none
abbrev pub has_server : ℕ → List Server → Bool
has_server id servers = is_some (find (λ (r : Server). r.id == id) servers)

abbrev pub has_tribe : Option ℕ → List Tribe → Bool
has_tribe none tribes = true
has_tribe (some id) tribes = is_some (find (λ (r : Tribe). r.id == id) tribes)

module _ {W : Type 0} where
  abbrev pub query : {A : Type 0} → (World W → A) → Work W A
  query f t = (ok (f t.db), t)

  abbrev pub write : (World W → World W) → Work W Unit
  write f t = (ok tt, record t { db = f t.db })

  abbrev flushed : Tx W → Option (World W) → Result SessionError (Unit {0}) × Tx W
  flushed t none = (err integrity, t)
  flushed t (some w) = (ok tt, record t { db = w })

  -- an INSERT that the database may refuse
  abbrev pub try_write : (World W → Option (World W)) → Work W Unit
  try_write f t = flushed t (f t.db)

  abbrev pub rollback : Work W Unit
  rollback t = (ok tt, record t { db = t.saved })

  -- The renaming of a tribe reaches the database at the commit, which checks it there.
  unfoldable pub commit : Work W Unit
  commit t =
      if names_are_unique t.db.tribes
      then (ok tt, record t { saved = t.db })
      else (err integrity, record t { db = t.saved })

  -- `except Exception:` around a flush
  abbrev caught : {A : Type 0} → Work W A → Result SessionError (Unit {0}) → A → Work W A
  caught recover (ok u) a = λ t. (ok a, t)
  caught recover (err e) a = recover

  abbrev pub flush_or : {A : Type 0} → (World W → Option (World W)) → A → Work W A → Work W A
  flush_or f a recover t = let (r, t') = try_write f t in caught recover r a t'

  abbrev pub closed : {A : Type 0} → Result SessionError A × Tx W → Bool × World W
  closed (ok a, t) = (true, t.saved)
  closed (err e, t) = (false, t.saved)

  -- `with session_factory() as session`: whether the body returned, and what it committed
  unfoldable pub in_session : {A : Type 0} → Work W A → World W → Bool × World W
  in_session body w = closed (body (record { db = w; saved = w }))
