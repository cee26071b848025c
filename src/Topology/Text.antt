-- ===== src/Topology/Text.antt =====
-- Python's `rpartition`, `strip` and `int` on strings, as far as `_split_ip_port` and the validators
-- use them. Of the digits that `int` reads, those outside ASCII are not modelled.
use Prim.Native.Char.{Char, code}
use Prim.Native.String.{String, [], ◌∷◌}
use Prim.Native.Nat.{ℕ, ◌+◌, ◌*◌, ◌-◌}
use mathlib.Core.Bool.{Bool, true, false, ◌&&◌, ◌||◌}
use ark_esp_backend.Prelude.{Option, none, some, ◌==◌, leb, if◌then◌else◌}
use ark_esp_backend.Prelude.Int.{ℤ, pos, negsuc}

-- the characters that `str.isspace` accepts
abbrev pub is_space : Char → Bool
is_space c =
    let n = code c in
    (leb 9 n && leb n 13)
    || (leb 28 n && leb n 32)
    || n == 133
    || n == 160
    || n == 5760
    || (leb 8192 n && leb n 8202)
    || n == 8232
    || n == 8233
    || n == 8239
    || n == 8287
    || n == 12288

-- `not v.strip()`
abbrev pub is_blank : String → Bool
is_blank [] = true
is_blank (c ∷ s) = is_space c && is_blank s

abbrev pub lstrip : (Char → Bool) → String → String
lstrip p [] = []
lstrip p (c ∷ s) = if p c then lstrip p s else c ∷ s

-- A character stays unless it and all after it are stripped.
abbrev keep : (Char → Bool) → Char → String → String
keep p c [] = if p c then [] else c ∷ []
keep p c (d ∷ s) = c ∷ d ∷ s

abbrev pub rstrip : (Char → Bool) → String → String
rstrip p [] = []
rstrip p (c ∷ s) = keep p c (rstrip p s)

abbrev pub strip : (Char → Bool) → String → String
strip p s = rstrip p (lstrip p s)

-- `rpartition(":")`: the text before and after the last colon; `none` where there is none
abbrev cons_left : Char → Option (String × String) → Option (String × String)
cons_left c none = none
cons_left c (some (a, b)) = some (c ∷ a, b)

abbrev at_colon : Char → String → Option (String × String) → Option (String × String)
at_colon c s (some later) = some (c ∷ later.0, later.1)
at_colon c s none = if code c == 58 then some ([], s) else none

abbrev pub rpartition_colon : String → Option (String × String)
rpartition_colon [] = none
rpartition_colon (c ∷ s) = at_colon c s (rpartition_colon s)

abbrev is_digit : Char → Bool
is_digit c = leb 48 (code c) && leb (code c) 57

-- the digits, with single underscores between them; the flag says whether a digit came just before
abbrev digits : Bool → ℕ → String → Option ℕ
digits after_digit n [] = if after_digit then some n else none
digits after_digit n (c ∷ s) =
    let more = digits true (10 * n + (code c - 48)) s in
    let skip = digits false n s in
    if is_digit c then more else if code c == 95 && after_digit then skip else none

abbrev negated : Option ℕ → Option ℤ
negated none = none
negated (some n) = some (if n == 0 then pos 0 else negsuc (n - 1))

abbrev positive : Option ℕ → Option ℤ
positive none = none
positive (some n) = some (pos n)

abbrev signed : String → Option ℤ
signed [] = none
signed (c ∷ s) =
    if code c == 43
    then positive (digits false 0 s)
    else if code c == 45
    then negated (digits false 0 s)
    else positive (digits false 0 (c ∷ s))

-- `int(s)`; `none` is a ValueError
unfoldable pub parse_int : String → Option ℤ
parse_int s = signed (strip is_space s)

abbrev is_bracket : Char → Bool
is_bracket c = code c == 91 || code c == 93

-- `s.strip("[]")`
abbrev pub strip_brackets : String → String
strip_brackets s = strip is_bracket s
