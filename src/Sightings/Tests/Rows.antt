-- ===== src/Sightings/Tests/Rows.antt =====
-- The theorems on sightings at concrete sequences.
use ark_esp_backend.Prelude.{ℕ, String, ◌≡◌, refl, true, false, Option, none, some, List, [], ◌∷◌}
use ark_esp_backend.Prelude.Int.{ℤ, pos}
use ark_esp_backend.Models.{World, TamedDino}
use ark_esp_backend.Sightings.Fields.{Draw}
use ark_esp_backend.Sightings.Players.Arrivals.{Arrival, IsFresh, store_one, store_all}
use ark_esp_backend.Prelude.Upsert.{upsert}
use ark_esp_backend.Topology.Session.{in_session}
use ark_esp_backend.Sightings.Players.{upsert_player}
use ark_esp_backend.Sightings.Players.Latest.{IsLatest, every_column-IsLatest}
use ark_esp_backend.Sightings.Structures.Rows.{Observation}
use ark_esp_backend.Sightings.Structures.Store.{
  Report, seen, gone, map_of, note_all, apply_all, IsFresh as HasFreshIds,
}
use ark_esp_backend.Sightings.Structures.Refinement.{table_refines_map}
use ark_esp_backend.Sightings.Dinos.Closest.{distance_sq, match_radius_sq}
use ark_esp_backend.Sightings.Dinos.Rows.{find_dino}
use ark_esp_backend.Sightings.Dinos.Nearest.{IsFound, find_dino_is_nearest}
use ark_esp_backend.Sightings.Tests.Worlds.{
  doubles, doubles-ComparesNumbers, draw, empty_world, known_world, next_id, next_id-IsFree,
}

-- the ids of players and of structures
abbrev player_draws : World ℕ → Draw
player_draws w = draw (next_id (λ r. r.id) w.players)

player_draws-IsFresh : IsFresh player_draws
player_draws-IsFresh w = next_id-IsFree (λ r. r.id) w.players

abbrev sighting : String → Option ℤ → Option ℕ → Arrival ℕ
sighting platform_id level x = record {
  server_id = 1;
  sighting = record {
    server_ip = "10.0.0.1:7777";
    platform_id = platform_id;
    character_name = some "Bob";
    level = level;
    x = x;
    y = none;
    z = none;
    observed_at = none;
    reported_by_account_id = none;
  };
}

abbrev arrivals : List (Arrival ℕ)
arrivals =
    sighting "p" (some (pos 3)) (some 8) ∷ sighting "q" none none ∷ sighting "p" none (some 9) ∷ []

every_column-IsLatest_example :
    ((store_all player_draws arrivals known_world).0 ≡ true)
    × ((server_id : ℕ) (platform_id : String)
        → IsLatest server_id platform_id arrivals known_world
            (store_all player_draws arrivals known_world).1)
every_column-IsLatest_example =
    every_column-IsLatest player_draws player_draws-IsFresh arrivals known_world
      (record { ids = tt; names = refl; known = refl })

-- A sighting on a server that has no row is refused.
unknown_server_refused : (store_one player_draws (sighting "p" none none) empty_world).0 ≡ false
unfolding store_one upsert_player in_session upsert
unknown_server_refused = refl

abbrev structure_draws : World ℕ → Draw
structure_draws w = draw (next_id (λ r. r.id) w.structures)

structure_draws-IsFresh : HasFreshIds structure_draws
structure_draws-IsFresh w = next_id-IsFree (λ r. r.id) w.structures

abbrev observation : ℕ → Option ℕ → Observation ℕ
observation time health = record {
  class_code = "wall";
  tribe_id = some 4;
  x = some 1;
  y = none;
  z = none;
  health = health;
  observed_at = time;
  reported_by_account_id = none;
}

abbrev reports : List (Report ℕ)
reports =
    seen 1 "h" (observation 7 (some 100))
    ∷ seen 1 "k" (observation 8 none)
    ∷ gone 1 "k"
    ∷ seen 1 "h" (observation 5 none)
    ∷ []

table_refines_map_example :
    ((apply_all structure_draws reports known_world).0 ≡ true)
    × ((m : ℕ) (u : String)
        → map_of (apply_all structure_draws reports known_world).1 m u
          ≡ note_all reports (map_of known_world) m u)
table_refines_map_example =
    table_refines_map structure_draws structure_draws-IsFresh reports known_world
      (record { ids = tt; hashes = tt; names = refl; known = refl })

abbrev dino : ℕ → Option ℕ → TamedDino ℕ
dino id x = record {
  id = id;
  server_id = 1;
  tribe_id = none;
  species_id = 2;
  object_hash = some "d";
  x = x;
  y = some 0;
  z = some 0;
  last_seen_at = none;
  updated_at = none;
  last_updated_by_account_id = none;
}

abbrev dinos : List (TamedDino ℕ)
dinos = dino 1 (some 9000) ∷ dino 2 (some 110) ∷ dino 3 none ∷ dino 4 (some 90) ∷ []

find_dino_is_nearest_example :
    (r : Option (TamedDino ℕ)) × (find_dino (some 100) (some 0) (some 0) dinos ≡ some r)
    × IsFound (λ (a : TamedDino ℕ). distance_sq a.x a.y a.z 100 0 0) match_radius_sq none dinos r
unfolding distance_sq
find_dino_is_nearest_example = find_dino_is_nearest 100 0 0 dinos refl (
  (79210000, refl, refl),
  ((100, refl, refl), ((100000000000, refl, refl), ((100, refl, refl), tt))),
)
