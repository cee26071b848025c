-- ===== src/Sightings/Dinos/Message.antt =====
-- The message of a dino: DinoSighting and parse_sighting of
-- backend_python/src/services/dino_sighting_service.py.
use ark_esp_backend.Prelude.{ℕ, String, Bool, false, Option, none, some}
use ark_esp_backend.Prelude.Int.{ℤ}
use ark_esp_backend.Stream.Consumer.{StreamFields}
use ark_esp_backend.Sightings.Fields.{Reading, get, optional, or_default, bind, not_blank}

module _ (W : Type 0) where
  pub record DinoSighting : Type 0 where
    pub server_ip : String
    pub object_hash : String
    pub class_ : Option String
    pub tribe_name : Option String
    pub team : Option ℤ
    pub tamed : Bool
    pub x : Option W
    pub y : Option W
    pub z : Option W
    pub health : Option W
    pub observed_at : Option ℕ
    pub reported_by_account_id : Option String
    pub reported_by_character_id : Option String

-- "class" takes the place of "class_".
abbrev class_field : StreamFields → Option String
class_field fields = or_else (get "class" fields) (get "class_" fields)
  where
    or_else : Option String → Option String → Option String
    or_else none b = b
    or_else (some a) b = some a

module _ {W : Type 0} (rd : Reading W) where
  -- `none` is a ValidationError.
  unfoldable pub parse_sighting : StreamFields → Option (DinoSighting W)
  parse_sighting fields = bind (get "server_ip" fields) λ server_ip.
      bind (bind (get "object_hash" fields) not_blank) λ object_hash.
        bind (optional rd.int (get "team" fields)) λ team.
          bind (or_default false rd.bool (get "tamed" fields)) λ tamed.
            bind (optional rd.float (get "x" fields)) λ x.
              bind (optional rd.float (get "y" fields)) λ y.
                bind (optional rd.float (get "z" fields)) λ z.
                  bind (optional rd.float (get "health" fields)) λ health.
                    bind (optional rd.datetime (get "observed_at" fields)) λ observed_at.
                      some (record {
                        server_ip = server_ip;
                        object_hash = object_hash;
                        class_ = class_field fields;
                        tribe_name = get "tribe_name" fields;
                        team = team;
                        tamed = tamed;
                        x = x;
                        y = y;
                        z = z;
                        health = health;
                        observed_at = observed_at;
                        reported_by_account_id = get "reported_by_account_id" fields;
                        reported_by_character_id = get "reported_by_character_id" fields;
                      })
