-- ===== src/Density/Rooms.antt =====
-- The rooms of the live layer: the names of their keys, and what `_collect_room` reads of them. Redis is
-- a parameter: what it answers. Scores are times in microseconds, where the code has milliseconds as a
-- float.
use Prim.Native.Char.{Char}
use Prim.Native.String.{[], ◌∷◌, len, ◌++◌ as append}
use ark_esp_backend.Prelude.{
  ℕ, ◌-◌, ◌*◌, ◌%◌, ◌/◌, String, Bool, false, not, ◌&&◌, ◌||◌, Option, none, some, List, leb,
  str_eq, if◌then◌else◌,
}
use ark_esp_backend.Prelude.Int.{ℤ, pos, ◌==ℤ◌}
use ark_esp_backend.Prelude.Double.{Double}
use ark_esp_backend.Topology.Text.{parse_int}
use ark_esp_backend.Sightings.Fields.{bind}

-- the fields of an entity that HMGET asks for
pub record Entity : Type 0 where
  pub cat : Option String
  pub tamed : Option String
  pub team : Option String
  pub tribe : Option String
  pub x : Option String
  pub y : Option String

-- `scan_iter` over the keys that start and end with two texts, `zrangebyscore` from a score on, HMGET
pub record Redis : Type 0 where
  pub scan : String → String → List String
  pub zrangebyscore : String → ℕ → List String
  pub hmget : String → Entity

pub record DensitySetting : Type 0 where
  pub cell_size_units : ℕ
  pub bucket_seconds : ℕ
  pub live_floor_seconds : ℕ

abbrev pub room_suffix : String
room_suffix = ":entities"

abbrev pub room_prefix : String → String
room_prefix group_id = append "ark:group:" (append group_id ":server:")

-- `s` after a prefix, and before a suffix; `none` where it does not start or end so
abbrev pub after_prefix : String → String → Option String
after_prefix [] s = some s
after_prefix (c ∷ p) [] = none
after_prefix (c ∷ p) (d ∷ s) =
    let rest = after_prefix p s in if str_eq (c ∷ []) (d ∷ []) then rest else none

abbrev pub before_suffix : String → String → Option String
before_suffix suffix [] = if str_eq [] suffix then some [] else none
before_suffix suffix (c ∷ s) =
    let rest = before_suffix suffix s in if str_eq (c ∷ s) suffix then some [] else cons c rest
  where
    cons : Char → Option String → Option String
    cons c none = none
    cons c (some s) = some (c ∷ s)

abbrev not_empty : String → Option String
not_empty s = if str_eq s "" then none else some s

unfoldable pub server_ip_from_room_key : String → String → Option String
server_ip_from_room_key key group_id =
    bind (after_prefix (room_prefix group_id) key)
      λ rest. bind (before_suffix room_suffix rest) not_empty

-- `room_key[: -len(_ROOM_SUFFIX)]`
abbrev pub drop_last : ℕ → String → String
drop_last n [] = []
drop_last n (c ∷ s) = let rest = drop_last n s in if leb n (len s) then c ∷ rest else []

unfoldable pub bucket_start_for : ℕ → ℕ → ℕ
bucket_start_for moment bucket_seconds =
    let epoch_seconds = moment / 1000000 in
    (epoch_seconds - epoch_seconds % bucket_seconds) * 1000000

-- where dinos are counted together
pub record Cell : Type 0 where
  pub cell_x : ℤ
  pub cell_y : ℤ
  pub tribe : String
  pub team : ℤ

abbrev pub same_cell : Cell → Cell → Bool
same_cell a b =
    a.cell_x ==ℤ b.cell_x
    && (a.cell_y ==ℤ b.cell_y && (str_eq a.tribe b.tribe && a.team ==ℤ b.team))

abbrev pub is_text : Option String → String → Bool
is_text none v = false
is_text (some u) v = str_eq u v

abbrev pub or_empty : Option String → String
or_empty none = ""
or_empty (some v) = v

-- `int(row[2] or 0)`
abbrev pub team_of : String → Option ℤ
team_of v = if str_eq v "" then some (pos 0) else parse_int v

module _ (W : Type 0) ⦃d : Double W⦄ where
  -- `none` is the exception of `math.floor`.
  abbrev pub cell_index : W → ℕ → Option ℤ
  cell_index value cell_size_units = d.floor_div value cell_size_units

  -- What a row counts for: `none` is an exception, `some none` a row that is passed over.
  abbrev in_cell : ℕ → String → ℤ → W → W → Option (Option Cell)
  in_cell size tribe team x y = bind (cell_index x size) λ cell_x.
      bind (cell_index y size) λ cell_y.
        some (some (record { cell_x = cell_x; cell_y = cell_y; tribe = tribe; team = team }))

  abbrev pub numbers : ℕ → String → Option ℤ → Option W → Option W → Option (Option Cell)
  numbers size tribe (some team) (some x) (some y) = in_cell size tribe team x y
  numbers size tribe (some team) (some x) none = some none
  numbers size tribe (some team) none y = some none
  numbers size tribe none x y = some none

  unfoldable pub cell_of : ℕ → Entity → Option (Option Cell)
  cell_of size row =
      if not (is_text row.cat "dino")
        || (not (is_text row.tamed "1") || str_eq (or_empty row.tribe) "")
      then some none
      else numbers size (or_empty row.tribe) (team_of (or_empty row.team)) (bind row.x d.parse)
          (bind row.y d.parse)
