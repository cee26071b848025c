-- ===== src/Sightings/Tests/Clash.antt =====
-- A message about a tribe that has taken the name of another.
use ark_esp_backend.Prelude.{ℕ, String, ◌≡◌, refl, false, none, some, [], ◌∷◌}
use ark_esp_backend.Prelude.Int.{ℤ, pos}
use ark_esp_backend.Models.{World, Tribe}
use ark_esp_backend.Stream.Consumer.{StreamFields}
use ark_esp_backend.Topology.Text.{parse_int}
use ark_esp_backend.Topology.Servers.{split_ip_port}
use ark_esp_backend.Sightings.Fields.{Reading}
use ark_esp_backend.Sightings.Structures.Message.{StructureSighting, parse_sighting}
use ark_esp_backend.Sightings.Structures.Handling.{structure_handler}
use ark_esp_backend.Sightings.Structures.Poison.{HasClash, renamed_tribe_blocks_message}
use ark_esp_backend.Sightings.Tests.Worlds.{draw, empty_world}

abbrev reading : Reading ℕ
reading = record {
  int = parse_int;
  float = λ v. none;
  datetime = λ v. none;
  bool = λ v. none;
  uuid = λ v. none;
  inet = λ v. some v;
}

abbrev tribe : ℕ → ℤ → String → Tribe
tribe id number name = record { id = id; server_id = 1; ark_tribe_id = some number; name = name }

abbrev world : World ℕ
world = record empty_world {
  servers =
      record {
        id = 1;
        name = "s";
        ip_address = some "10.0.0.1";
        port = some (pos 7777);
        map_code = "unknown";
      }
      ∷ [];
  tribes = tribe 1 (pos 5) "bears" ∷ tribe 2 (pos 6) "wolves" ∷ [];
  structure_classes =
      record { code = "wall"; category = "unknown"; label = none; is_turret = false } ∷ [];
}

-- the tribe with the number 5 now calls itself "wolves"
abbrev fields : StreamFields
fields =
    ("server_ip", "10.0.0.1:7777")
    ∷ ("object_hash", "h")
    ∷ ("class", "wall")
    ∷ ("tribe_name", "wolves")
    ∷ ("team", "5")
    ∷ []

abbrev sighting : StructureSighting ℕ
sighting = record {
  server_ip = "10.0.0.1:7777";
  object_hash = "h";
  class_code = some "wall";
  tribe_name = some "wolves";
  team = some (pos 5);
  x = none;
  y = none;
  z = none;
  health = none;
  max_health = none;
  turret_ammo = none;
  turret_range = none;
  turret_powered = none;
  turret_active = none;
  removed = false;
  observed_at = none;
  reported_by_account_id = none;
  reported_by_character_id = none;
}

fields_parsed : parse_sighting reading fields ≡ some sighting
unfolding parse_sighting parse_int
fields_parsed = refl

sighting-HasClash : HasClash reading sighting world
unfolding split_ip_port parse_int
sighting-HasClash = record {
  code = "wall";
  structure_class = record { code = "wall"; category = "unknown"; label = none; is_turret = false };
  present = refl;
  has_class = refl;
  class_known = refl;
  place = ("10.0.0.1", pos 7777);
  ip = "10.0.0.1";
  server = record {
    id = 1;
    name = "s";
    ip_address = some "10.0.0.1";
    port = some (pos 7777);
    map_code = "unknown";
  };
  split = refl;
  read = refl;
  server_known = refl;
  name = "wolves";
  number = pos 5;
  holder = tribe 1 (pos 5) "bears";
  other = tribe 2 (pos 6) "wolves";
  has_name = refl;
  filled = refl;
  has_number = refl;
  held = refl;
  renamed = refl;
  by_name = refl;
}

renamed_tribe_blocks_message_example :
    structure_handler reading (λ w. draw 3) fields world ≡ (false, world)
renamed_tribe_blocks_message_example =
    renamed_tribe_blocks_message reading (λ w. draw 3) fields sighting world fields_parsed
      (refl, (refl, tt)) sighting-HasClash
