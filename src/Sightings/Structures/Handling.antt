-- ===== src/Sightings/Structures/Handling.antt =====
-- ingest_structure_sighting and the handler of
-- backend_python/src/services/structure_sighting_service.py.
use ark_esp_backend.Prelude.{
  ℕ, String, Bool, Option, none, some, if◌then◌else◌, or_raise, pure, true, false, ◌>>=◌, ◌>>◌,
}
use ark_esp_backend.Prelude.Upsert.{value_or}
use ark_esp_backend.Models.{ArkStructure, World}
use ark_esp_backend.Stream.Consumer.{Handler}
use ark_esp_backend.Topology.Session.{value_error, Work, in_session}
use ark_esp_backend.Topology.Servers.{get_or_create_server_by_ip}
use ark_esp_backend.Topology.Tribes.{get_or_create_tribe}
use ark_esp_backend.Topology.Lookups.{get_or_create_structure_class}
use ark_esp_backend.Sightings.Fields.{Reading, Draw, tribe_id_of, reporter}
use ark_esp_backend.Sightings.Structures.Message.{StructureSighting, parse_sighting, is_turret}
use ark_esp_backend.Sightings.Structures.Rows.{
  Observation, upsert_structure, upsert_turret, delete_by_hash,
}

module _ {W : Type 0} (rd : Reading W) where
  module _ (draw : Draw) (s : StructureSighting W) (server_id : ℕ) where
    abbrev pub store_turret : ArkStructure W → Work W Unit
    store_turret r =
        if is_turret s
        then upsert_turret r.id s.turret_ammo s.turret_range s.turret_active
        else pure tt

    abbrev pub store_class : String → Work W Unit
    store_class code = do
      structure_class ← get_or_create_structure_class code (is_turret s)
      tribe ← get_or_create_tribe draw.tribe server_id s.tribe_name s.team
      reported_by ← or_raise (reporter rd s.reported_by_account_id) value_error
      let o : Observation W = record {
        class_code = structure_class.code;
        tribe_id = tribe_id_of tribe;
        x = s.x;
        y = s.y;
        z = s.z;
        health = s.health;
        observed_at = value_or draw.now s.observed_at;
        reported_by_account_id = reported_by;
      }
      structure ← upsert_structure draw.row server_id s.object_hash o
      store_turret structure

    -- A message without a class is dropped.
    abbrev pub store_if_class : Option String → Work W Unit
    store_if_class none = pure tt
    store_if_class (some code) = store_class code

    abbrev pub store : Bool → Work W Unit
    store true = delete_by_hash server_id s.object_hash >> pure tt
    store false = store_if_class s.class_code

  unfoldable pub ingest_structure_sighting : Draw → StructureSighting W → Work W Unit
  ingest_structure_sighting draw s = do
    server ← get_or_create_server_by_ip rd.inet draw.server s.server_ip
    store draw s server.id s.removed

  abbrev ingest_parsed : Draw → Option (StructureSighting W) → World W → Bool × World W
  ingest_parsed draw none w = (true, w)
  ingest_parsed draw (some s) w = in_session (ingest_structure_sighting draw s) w

  unfoldable pub structure_handler : (World W → Draw) → Handler (World W)
  structure_handler draws fields w = ingest_parsed (draws w) (parse_sighting rd fields) w
