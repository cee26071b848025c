-- ===== src/Pagination.antt =====
-- Listing by pages: backend_python/src/core/pagination.py, and `list_page` and `list_…` of the
-- repositories and services of activation keys and API keys, for any rows with a time and an id.
-- base64, the ISO format and UUIDs are the parameter `Codec`; `none` is a ValueError.
pub mod Bar
pub mod Order
pub mod Walk
mod Tests
use Prim.Native.String.{◌++◌}
use ark_esp_backend.Prelude.{
  ℕ, zero, suc, String, ◌+◌, Bool, true, false, ◌&&◌, ◌||◌, Option, none, some, List, [], ◌∷◌, ltb,
  ◌==◌, if◌then◌else◌, max, min, Result, ok, err, str_eq,
}
use mathlib.Core.Option.{map}
use ark_esp_backend.Pagination.Bar.{split_bar}
use ark_esp_backend.Prelude.Table.{select, order_by}

pub record Codec : Type 0 where
  pub b64encode : String → String
  pub b64decode : String → Option String
  pub isoformat : ℕ → String
  pub fromisoformat : String → Option ℕ
  pub show : ℕ → String
  pub uuid : String → Option ℕ

pub data InvalidCursor : Type 0 where
  invalid_cursor : InvalidCursor

-- a number of rows and the first of them
abbrev pub length : {A : Type 0} → List A → ℕ
length [] = 0
length (x ∷ xs) = suc (length xs)

abbrev pub take : {A : Type 0} → ℕ → List A → List A
take zero xs = []
take (suc n) [] = []
take (suc n) (x ∷ xs) = x ∷ take n xs

abbrev pub last : {A : Type 0} → List A → Option A
last [] = none
last (x ∷ []) = some x
last (x ∷ y ∷ xs) = last (y ∷ xs)

abbrev pair : Option ℕ → Option ℕ → Option (ℕ × ℕ)
pair (some t) (some id) = some (t, id)
pair (some t) none = none
pair none id = none

abbrev pub max_limit : ℕ
max_limit = 500

module _ (c : Codec) where
  unfoldable pub encode_cursor : (sort_at row_id : ℕ) → String
  encode_cursor sort_at row_id = c.b64encode (c.isoformat sort_at ++ ("|" ++ c.show row_id))

  abbrev pub halves : Option (String × String) → Option (ℕ × ℕ)
  halves none = none
  halves (some (ts_raw, id_raw)) = pair (c.fromisoformat ts_raw) (c.uuid id_raw)

  abbrev pub parse : Option String → Option (ℕ × ℕ)
  parse none = none
  parse (some raw) = halves (split_bar raw)

  unfoldable pub decode_cursor : String → Option (ℕ × ℕ)
  decode_cursor cursor = parse (c.b64decode cursor)

-- `created_at < t or created_at == t and id < i`
abbrev pub is_past_key : ℕ × ℕ → ℕ × ℕ → Bool
is_past_key (t, i) (created_at, id) = ltb created_at t || (created_at == t && ltb id i)

module _ {A : Type 0} (key : A → ℕ × ℕ) where
  abbrev pub follows : A → A → Bool
  follows x y = is_past_key (key x) (key y)

  abbrev pub from : Option (ℕ × ℕ) → List A → List A
  from none rows = rows
  from (some after) rows = select (λ r. is_past_key after (key r)) rows

  unfoldable pub list_page : Option (ℕ × ℕ) → ℕ → List A → List A
  list_page after limit rows = take limit (order_by follows (from after rows))

  abbrev pub next_cursor : Codec → Option A → Option String
  next_cursor c none = none
  next_cursor c (some x) = some (encode_cursor c (key x).0 (key x).1)

  -- what the service does with one row more than it was asked for
  unfoldable pub cut : Codec → ℕ → List A → List A × Option String
  cut c limit rows =
      if ltb limit (length rows)
      then (take limit rows, next_cursor c (last (take limit rows)))
      else (rows, none)

  abbrev pub list_after :
      Codec → ℕ → List A → Option (Option (ℕ × ℕ)) → Result InvalidCursor (List A × Option String)
  list_after c limit rows none = err invalid_cursor
  list_after c limit rows (some after) = ok (cut c limit (list_page after (suc limit) rows))

-- `decode_cursor(cursor) if cursor else None`
abbrev pub start_at : Codec → Option String → Option (Option (ℕ × ℕ))
start_at c none = some none
start_at c (some cursor) =
    if str_eq cursor "" then some none else map (λ k. some k) (decode_cursor c cursor)

-- A limit below one, which the routes refuse, counts as one.
unfoldable pub list_rows :
    {A : Type 0}
    → (A → ℕ × ℕ)
    → Codec
    → Option String
    → ℕ
    → List A
    → Result InvalidCursor (List A × Option String)
list_rows key c cursor limit rows =
    list_after key c (max 1 (min limit max_limit)) rows (start_at c cursor)
