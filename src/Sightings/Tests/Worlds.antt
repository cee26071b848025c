-- ===== src/Sightings/Tests/Worlds.antt =====
-- A database for the tests, doubles that are natural numbers, and ids that are drawn above all others.
use ark_esp_backend.Prelude.{
  ℕ, suc, ◌+◌, ◌-◌, ◌*◌, ◌/◌, ◌≤◌, ◌≡◌, refl, false, Option, none, some, List, [], ◌∷◌, leb, ltb,
  arith,
}
use ark_esp_backend.Prelude.Int.{ℤ, pos, negsuc}
use ark_esp_backend.Prelude.Double.{Double, ComparesNumbers}
use ark_esp_backend.Prelude.Table.{find}
use ark_esp_backend.Prelude.Unique.{has_key}
use ark_esp_backend.Models.{World}
use ark_esp_backend.Topology.Text.{parse_int}
use ark_esp_backend.Sightings.Fields.{Draw}

abbrev pub next_id : {A : Type 0} → (A → ℕ) → List A → ℕ
next_id key [] = 0
next_id key (x ∷ xs) = suc (key x) + next_id key xs

next_id-free :
    {A : Type 0} (key : A → ℕ) (xs : List A) (n : ℕ)
    → next_id key xs ≤ n
    → find (has_key key n) xs ≡ none
next_id-free key [] n h = refl
next_id-free key (x ∷ xs) n h = ground (arith, next_id-free key xs n (omega (arith, h)))

pub next_id-IsFree :
    {A : Type 0} (key : A → ℕ) (xs : List A) → find (has_key key (next_id key xs)) xs ≡ none
next_id-IsFree key xs = next_id-free key xs (next_id key xs) (omega arith)

-- a place is read as an integer that is not negative
abbrev whole : Option ℤ → Option ℕ
whole none = none
whole (some (pos n)) = some n
whole (some (negsuc n)) = none

instance abbrev pub doubles : Double ℕ
doubles = record {
  le = leb;
  sub = λ a b. (a - b) + (b - a);
  add = λ a b. a + b;
  square = λ a. some (a * a);
  infinity = 100000000000;
  of_ℕ = λ n. n;
  floor_div = λ a n. some (pos (a / n));
  round_div = λ a n. some (pos (a / n));
  exceeds = λ a n. ltb n a;
  parse = λ s. whole (parse_int s);
  show = λ a. "";
}

instance pub doubles-ComparesNumbers : ComparesNumbers ℕ
doubles-ComparesNumbers = record {
  chain = λ x y z h h'. ground arith;
  either = λ x y h h'. ground arith;
}

abbrev pub draw : ℕ → Draw
draw id = record { server = 9; tribe = 9; species = 9; row = id; now = 50 }

abbrev pub empty_world : World ℕ
empty_world = record {
  accounts = [];
  servers = [];
  persons = [];
  tribes = record { id = 4; server_id = 1; ark_tribe_id = none; name = "wolves" } ∷ [];
  species = [];
  structure_classes = [];
  players = [];
  structures = [];
  turrets = [];
  dinos = [];
  densities = [];
}

-- a server with a tribe, two persons and a class, where nothing was seen yet
abbrev pub known_world : World ℕ
known_world = record empty_world {
  servers =
      record {
        id = 1;
        name = "one";
        ip_address = some "10.0.0.1";
        port = some (pos 7777);
        map_code = "island";
      }
      ∷ [];
  persons = record { platform_id = "p" } ∷ record { platform_id = "q" } ∷ [];
  structure_classes =
      record { code = "wall"; category = "wall"; label = none; is_turret = false } ∷ [];
}
