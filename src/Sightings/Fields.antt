-- ===== src/Sightings/Fields.antt =====
-- The fields of a message. pydantic and `uuid.UUID` are parameters: how they read a text, with `none`
-- for a ValidationError or a ValueError. So are the draws of a session: ids and the time.
use ark_esp_backend.Prelude.{
  ℕ, String, Bool, true, false, Option, none, some, [], ◌∷◌, str_eq, if◌then◌else◌,
}
use ark_esp_backend.Prelude.Int.{ℤ}
use ark_esp_backend.Models.{Tribe}
use ark_esp_backend.Topology.Text.{is_blank}
use ark_esp_backend.Stream.Consumer.{StreamFields}

pub record Reading (W : Type 0) : Type 0 where
  pub int : String → Option ℤ
  pub float : String → Option W
  pub datetime : String → Option ℕ
  pub bool : String → Option Bool
  pub uuid : String → Option ℕ
  pub inet : String → Option String

-- the ids of the rows that a message may add, and the clock
pub record Draw : Type 0 where
  pub server : ℕ
  pub tribe : ℕ
  pub species : ℕ
  pub row : ℕ
  pub now : ℕ

abbrev pub get : String → StreamFields → Option String
get name [] = none
get name ((n, v) ∷ rest) = if str_eq n name then some v else get name rest

-- A field that must be there, one that may be missing, and one with a default.
abbrev pub optional : {A : Type 0} → (String → Option A) → Option String → Option (Option A)
optional read none = some none
optional read (some v) = lift (read v)
  where
    lift : {A : Type 0} → Option A → Option (Option A)
    lift none = none
    lift (some a) = some (some a)

abbrev pub or_default : {A : Type 0} → A → (String → Option A) → Option String → Option A
or_default a read none = some a
or_default a read (some v) = read v

abbrev pub text : String → Option String
text v = some v

-- `strconv.FormatBool` on the other side: `_parse_bool`
abbrev pub parse_bool : String → Option Bool
parse_bool v = if str_eq v "true" then some true else if str_eq v "false" then some false else none

-- a new value, or the old one where the message has none
abbrev pub newer : {A : Type 0} → Option A → Option A → Option A
newer none old = old
newer (some a) old = some a

abbrev pub not_blank : String → Option String
not_blank v = if is_blank v then none else some v

abbrev pub bind : {A B : Type 0} → Option A → (A → Option B) → Option B
bind none f = none
bind (some a) f = f a

abbrev pub tribe_id_of : Option Tribe → Option ℕ
tribe_id_of none = none
tribe_id_of (some t) = some t.id

module _ {W : Type 0} (rd : Reading W) where
  -- `uuid.UUID(...)` of the reporter, if there is one: a ValueError is not caught.
  abbrev pub reporter : Option String → Option (Option ℕ)
  reporter none = some none
  reporter (some v) = if str_eq v "" then some none else optional rd.uuid (some v)
