-- ===== src/Density/Tests.antt =====
-- A room with two groups of dinos, its cells, and the theorems at them.
use Prim.Native.String.{◌++◌ as plus}
use ark_esp_backend.Prelude.{
  ℕ, max, String, ◌≡◌, refl, true, none, some, List, [], ◌∷◌, str_eq, if◌then◌else◌,
}
use ark_esp_backend.Prelude.Int.{pos}
use ark_esp_backend.Models.{World}
use ark_esp_backend.Topology.Text.{parse_int}
use ark_esp_backend.Sightings.Fields.{Draw}
use ark_esp_backend.Sightings.Tests.Worlds.{doubles, draw, known_world, next_id, next_id-IsFree}
use ark_esp_backend.Density.Rooms.{
  Entity, Redis, Cell, cell_of, room_prefix, room_suffix, server_ip_from_room_key, bucket_start_for,
}
use ark_esp_backend.Density.Counting.{
  IsCounted, entities, count_rows, collect_room, collect_room_counts,
}
use ark_esp_backend.Density.Cells.{CellKey}
use ark_esp_backend.Density.Samples.{
  Sample, store_samples, IsFresh, peak, latest, highest, last_or, counts_of,
}
use ark_esp_backend.Density.Peaks.{samples_peak_and_last}
use ark_esp_backend.Density.Keys.{room_key_reads_back}

abbrev entity : String → String → String → Entity
entity tamed tribe x = record {
  cat = some "dino";
  tamed = some tamed;
  team = some "5";
  tribe = some tribe;
  x = some x;
  y = some "100";
}

-- the entities of the room by the last character of their keys
abbrev redis : Redis
redis = record {
  scan = λ prefix suffix. room_key ∷ [];
  zrangebyscore = λ key floor. "1" ∷ "2" ∷ "3" ∷ "4" ∷ [];
  hmget = λ key.
      if str_eq key (plus room_entity "1")
      then entity "1" "bears" "20000"
      else if str_eq key (plus room_entity "2")
      then entity "1" "bears" "29999"
      else if str_eq key (plus room_entity "3")
      then entity "0" "bears" "20000"
      else entity "1" "wolves" "20000";
}
  where
    room_key : String
    room_key = "ark:group:7:server:10.0.0.1:7777:entities"

    room_entity : String
    room_entity = "ark:group:7:server:10.0.0.1:7777:entity:"

abbrev room : String
room = "ark:group:7:server:10.0.0.1:7777:entities"

abbrev cell : String → Cell
cell tribe = record { cell_x = pos 2; cell_y = pos 0; tribe = tribe; team = pos 5 }

-- The wild dino is not counted.
room_counts : collect_room ℕ 10000 redis room 0 ≡ some ((cell "bears", 2) ∷ (cell "wolves", 1) ∷ [])
unfolding collect_room count_rows cell_of parse_int
room_counts = refl

collect_room_counts_example :
    IsCounted ℕ 10000 (entities redis room 0) [] (collect_room ℕ 10000 redis room 0)
collect_room_counts_example = collect_room_counts ℕ 10000 redis room 0

room_key_reads_back_example :
    server_ip_from_room_key (plus (room_prefix "7") (plus "10.0.0.1:7777" room_suffix)) "7"
    ≡ some "10.0.0.1:7777"
room_key_reads_back_example = room_key_reads_back "7" "10.0.0.1:7777" refl

-- a key without an address
no_address : server_ip_from_room_key "ark:group:7:server:entities" "7" ≡ none
unfolding server_ip_from_room_key
no_address = refl

bucket_of_noon : bucket_start_for 43210999999 900 ≡ 43200000000
unfolding bucket_start_for
bucket_of_noon = refl

abbrev draws : World ℕ → Draw
draws w = draw (next_id (λ r. r.id) w.densities)

draws-IsFresh : IsFresh draws
draws-IsFresh w = next_id-IsFree (λ r. r.id) w.densities

abbrev key : ℕ → CellKey
key bucket_start = record {
  server_id = 1;
  tribe_id = 4;
  cell_size_units = 10000;
  cell_x = pos 2;
  cell_y = pos 0;
  bucket_start = bucket_start;
}

abbrev samples : List Sample
samples =
    record { key = key 900; count = 5; observed_at = 901 }
    ∷ record { key = key 900; count = 7; observed_at = 950 }
    ∷ record { key = key 1800; count = 9; observed_at = 1801 }
    ∷ record { key = key 900; count = 2; observed_at = 990 }
    ∷ []

samples_peak_and_last_example :
    ((store_samples draws samples known_world).0 ≡ true)
    × ((k : CellKey)
        → (peak k (store_samples draws samples known_world).1
            ≡ max (peak k known_world) (highest (counts_of k samples)))
          × (latest k (store_samples draws samples known_world).1
              ≡ last_or (latest k known_world) (counts_of k samples)))
samples_peak_and_last_example =
    samples_peak_and_last draws draws-IsFresh samples known_world
      (record { ids = tt; names = refl; known = refl })
