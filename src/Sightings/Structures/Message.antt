-- ===== src/Sightings/Structures/Message.antt =====
-- The message of a structure: StructureSighting, parse_sighting and is_turret of
-- backend_python/src/services/structure_sighting_service.py.
use ark_esp_backend.Prelude.{ℕ, String, Bool, ◌||◌, Option, none, some, is_some, false}
use ark_esp_backend.Prelude.Int.{ℤ}
use ark_esp_backend.Stream.Consumer.{StreamFields}
use ark_esp_backend.Sightings.Fields.{
  Reading, get, optional, or_default, bind, not_blank, parse_bool,
}

module _ (W : Type 0) where
  pub record StructureSighting : Type 0 where
    pub server_ip : String
    pub object_hash : String
    pub class_code : Option String
    pub tribe_name : Option String
    pub team : Option ℤ
    pub x : Option W
    pub y : Option W
    pub z : Option W
    pub health : Option W
    pub max_health : Option W
    pub turret_ammo : Option ℤ
    pub turret_range : Option W
    pub turret_powered : Option Bool
    pub turret_active : Option Bool
    pub removed : Bool
    pub observed_at : Option ℕ
    pub reported_by_account_id : Option String
    pub reported_by_character_id : Option String

-- The alias "class" comes before the name of the field.
abbrev class_field : StreamFields → Option String
class_field fields = or_else (get "class" fields) (get "class_code" fields)
  where
    or_else : Option String → Option String → Option String
    or_else none b = b
    or_else (some a) b = some a

module _ {W : Type 0} (rd : Reading W) where
  -- `none` is a ValidationError.
  unfoldable pub parse_sighting : StreamFields → Option (StructureSighting W)
  parse_sighting fields = bind (get "server_ip" fields) λ server_ip.
      bind (bind (get "object_hash" fields) not_blank) λ object_hash.
        bind (optional rd.int (get "team" fields)) λ team.
          bind (optional rd.float (get "x" fields)) λ x.
            bind (optional rd.float (get "y" fields)) λ y.
              bind (optional rd.float (get "z" fields)) λ z.
                bind (optional rd.float (get "health" fields)) λ health.
                  bind (optional rd.float (get "max_health" fields)) λ max_health.
                    bind (optional rd.int (get "turret_ammo" fields)) λ turret_ammo.
                      bind (optional rd.float (get "turret_range" fields)) λ turret_range.
                        bind (optional parse_bool (get "turret_powered" fields)) λ turret_powered.
                          bind (optional parse_bool (get "turret_active" fields)) λ turret_active.
                            bind (or_default false parse_bool (get "removed" fields)) λ removed.
                              bind (optional rd.datetime (get "observed_at" fields)) λ observed_at.
                                some (record {
                                  server_ip = server_ip;
                                  object_hash = object_hash;
                                  class_code = class_field fields;
                                  tribe_name = get "tribe_name" fields;
                                  team = team;
                                  x = x;
                                  y = y;
                                  z = z;
                                  health = health;
                                  max_health = max_health;
                                  turret_ammo = turret_ammo;
                                  turret_range = turret_range;
                                  turret_powered = turret_powered;
                                  turret_active = turret_active;
                                  removed = removed;
                                  observed_at = observed_at;
                                  reported_by_account_id = get "reported_by_account_id" fields;
                                  reported_by_character_id = get "reported_by_character_id" fields;
                                })

abbrev pub is_turret : {W : Type 0} → StructureSighting W → Bool
is_turret s = is_some s.turret_ammo || (is_some s.turret_range || is_some s.turret_powered)
