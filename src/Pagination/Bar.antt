-- ===== src/Pagination/Bar.antt =====
-- `raw.split("|", 1)`; without a bar the assignment to two names is a ValueError.
use Prim.Native.Char.{Char, code}
use Prim.Native.String.{String, [], ◌∷◌}
use ark_esp_backend.Prelude.{Option, none, some, ◌==◌, if◌then◌else◌}

abbrev cons_left : Char → Option (String × String) → Option (String × String)
cons_left c none = none
cons_left c (some (a, b)) = some (c ∷ a, b)

abbrev pub split_bar : String → Option (String × String)
split_bar [] = none
split_bar (c ∷ s) = if code c == 124 then some ([], s) else cons_left c (split_bar s)
