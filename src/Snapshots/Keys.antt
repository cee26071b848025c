-- ===== src/Snapshots/Keys.antt =====
-- The keys of cached structures: redis_keys.py, `build_struct_key` and `_parse_key`.
use Prim.Native.Char.{Char, code}
use Prim.Native.String.{[], ◌∷◌, ◌++◌ as plus}
use ark_esp_backend.Prelude.{ℕ, String, ◌&&◌, Option, none, some, ◌==◌, str_eq, if◌then◌else◌}
use ark_esp_backend.Prelude.Int.{ℤ}
use ark_esp_backend.Prelude.Double.{Double}
use ark_esp_backend.Sightings.Fields.{bind}

unfoldable pub structure_hash_key : String → String → String
structure_hash_key tribe_id struct_key =
    plus "ark:tribe:" (plus tribe_id (plus ":structure:" struct_key))

-- the text before and after the first colon
abbrev pub split_colon : String → Option (String × String)
split_colon [] = none
split_colon (c ∷ s) =
    let rest = split_colon s in if code c == 58 then some ([], s) else cons_left c rest
  where
    cons_left : Char → Option (String × String) → Option (String × String)
    cons_left c none = none
    cons_left c (some (a, b)) = some (c ∷ a, b)

abbrev checked : (ark tribe tribe_id structure struct_key : String) → Option (String × String)
checked ark tribe tribe_id structure struct_key =
    if str_eq ark "ark" && (str_eq tribe "tribe" && str_eq structure "structure")
    then some (tribe_id, struct_key)
    else none

-- `key.split(":", 4)`, of five parts
unfoldable pub parse_key : String → Option (String × String)
parse_key key = bind (split_colon key) λ a.
    bind (split_colon a.1)
      λ b. bind (split_colon b.1) λ c. bind (split_colon c.1) λ d. checked a.0 b.0 c.0 d.0 d.1

-- `struct_key.split(":", 2)[1]`, if there are two colons
abbrev middle : Option (String × String) → String
middle none = ""
middle (some (a, b)) = a

abbrev pub map_id_of : String → String
map_id_of struct_key = middle (bind (split_colon struct_key) λ a. split_colon a.1)

-- `DEFAULT_DEDUP_RADIUS`
abbrev pub dedup_radius : ℕ
dedup_radius = 300

-- `radius` is a whole number of units; `show` writes an integer.
module _ {W : Type 0} ⦃d : Double W⦄ (show : ℤ → String) where
  -- `none` is the exception of `round`.
  unfoldable pub build_struct_key : String → String → W → W → W → Option String
  build_struct_key map_id class_ x y z = bind (d.round_div x dedup_radius) λ gx.
      bind (d.round_div y dedup_radius) λ gy. bind (d.round_div z dedup_radius) λ gz. some (
        plus class_ (
          plus ":" (
            plus map_id
              (plus ":" (plus (show gx) (plus ":" (plus (show gy) (plus ":" (show gz)))))))))
