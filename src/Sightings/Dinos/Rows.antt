-- ===== src/Sightings/Dinos/Rows.antt =====
-- tamed_dino_repo.upsert_dino, and ingest_dino_sighting and the handler of dino_sighting_service.py.
use ark_esp_backend.Prelude.{
  ℕ, String, Bool, true, false, not, ◌&&◌, Option, none, some, List, ◌∷◌, ◌==◌, str_eq,
  if◌then◌else◌, is_some, or_raise, raise_if, pure, ◌>>=◌, ◌>>◌,
}
use ark_esp_backend.Prelude.Double.{Double}
use ark_esp_backend.Prelude.Table.{find, select, update}
use ark_esp_backend.Prelude.Upsert.{value_or}
use ark_esp_backend.Models.{Species, TamedDino, World}
use ark_esp_backend.Stream.Consumer.{Handler}
use ark_esp_backend.Topology.Session.{
  value_error, integrity, overflow, Work, query, try_write, commit, is_reporter, has_server,
  has_tribe, in_session,
}
use ark_esp_backend.Topology.Servers.{get_or_create_server_by_ip}
use ark_esp_backend.Topology.Tribes.{get_or_create_tribe}
use ark_esp_backend.Topology.Lookups.{get_or_create_species}
use ark_esp_backend.Sightings.Fields.{Reading, Draw, newer, tribe_id_of, reporter}
use ark_esp_backend.Sightings.Dinos.Message.{DinoSighting, parse_sighting}
use ark_esp_backend.Sightings.Dinos.Closest.{closest, distance_sq, match_radius_sq}

-- what `upsert_dino` is told of the dino
pub record Observation (W : Type 0) : Type 0 where
  pub tribe_id : Option ℕ
  pub x : Option W
  pub y : Option W
  pub z : Option W
  pub observed_at : ℕ
  pub reported_by_account_id : Option ℕ

abbrev same_text : Option String → String → Bool
same_text none v = false
same_text (some u) v = str_eq u v

-- `select(TamedDino).where(server_id, species_id, object_hash)`
abbrev pub is_candidate : {W : Type 0} → (server_id species_id : ℕ) → String → TamedDino W → Bool
is_candidate server_id species_id object_hash r =
    r.server_id == server_id && (r.species_id == species_id && same_text r.object_hash object_hash)

module _ {W : Type 0} where
  abbrev pub new_dino : (id server_id species_id : ℕ) → String → TamedDino W
  new_dino id server_id species_id object_hash = record {
    id = id;
    server_id = server_id;
    tribe_id = none;
    species_id = species_id;
    object_hash = some object_hash;
    x = none;
    y = none;
    z = none;
    last_seen_at = none;
    updated_at = none;
    last_updated_by_account_id = none;
  }

  -- the assignments of `upsert_dino`
  unfoldable pub observe : Observation W → TamedDino W → TamedDino W
  observe o r = record r {
    tribe_id = newer o.tribe_id r.tribe_id;
    x = newer o.x r.x;
    y = newer o.y r.y;
    z = newer o.z r.z;
    last_seen_at = some o.observed_at;
    updated_at = some o.observed_at;
    last_updated_by_account_id = newer o.reported_by_account_id r.last_updated_by_account_id;
  }

  abbrev pub has_id : ℕ → TamedDino W → Bool
  has_id id r = r.id == id

  module _ (o : Observation W) (fresh : TamedDino W) where
    unfoldable pub put_dino : Option (TamedDino W) → World W → Option (World W)
    put_dino none w =
        if is_some (find (has_id fresh.id) w.dinos)
        then none
        else some (record w { dinos = observe o fresh ∷ w.dinos })
    put_dino (some r) w = some (record w { dinos = update (has_id r.id) (observe o) w.dinos })

  module _ ⦃d : Double W⦄ where
    -- Without a place no dino is looked for.
    unfoldable pub find_dino :
        Option W → Option W → Option W → List (TamedDino W) → Option (Option (TamedDino W))
    find_dino none y z candidates = some none
    find_dino (some x) none z candidates = some none
    find_dino (some x) (some y) none candidates = some none
    find_dino (some x) (some y) (some z) candidates =
        closest (λ r. distance_sq r.x r.y r.z x y z) match_radius_sq none candidates

    -- the foreign keys of the row
    abbrev is_referable : (server_id species_id : ℕ) → Observation W → World W → Bool
    is_referable server_id species_id o w =
        has_server server_id w.servers
        && (is_some (find (λ (r : Species). r.id == species_id) w.species)
            && (has_tribe o.tribe_id w.tribes && is_reporter o.reported_by_account_id w))

    unfoldable pub upsert_dino :
        (id server_id species_id : ℕ) → String → Observation W → Work W Unit
    upsert_dino id server_id species_id object_hash o = do
      candidates ← query (λ w. select (is_candidate server_id species_id object_hash) w.dinos)
      dino ← or_raise (find_dino o.x o.y o.z candidates) overflow
      try_write (put_dino o (new_dino id server_id species_id object_hash) dino)
      known ← query (is_referable server_id species_id o)
      raise_if (not known) integrity
      commit

    module _ (rd : Reading W) where
      abbrev store : Draw → DinoSighting W → String → Work W Unit
      store draw s code = do
        server ← get_or_create_server_by_ip rd.inet draw.server s.server_ip
        species ← get_or_create_species draw.species code
        tribe ← get_or_create_tribe draw.tribe server.id s.tribe_name s.team
        reported_by ← or_raise (reporter rd s.reported_by_account_id) value_error
        upsert_dino draw.row server.id species.id s.object_hash (record {
          tribe_id = tribe_id_of tribe;
          x = s.x;
          y = s.y;
          z = s.z;
          observed_at = value_or draw.now s.observed_at;
          reported_by_account_id = reported_by;
        })

      abbrev store_if_class : Draw → DinoSighting W → Option String → Work W Unit
      store_if_class draw s none = pure tt
      store_if_class draw s (some code) = if not s.tamed then pure tt else store draw s code

      -- A message without a class is dropped, and so is a wild dino.
      unfoldable pub ingest_dino_sighting : Draw → DinoSighting W → Work W Unit
      ingest_dino_sighting draw s = store_if_class draw s s.class_

      abbrev ingest_parsed : Draw → Option (DinoSighting W) → World W → Bool × World W
      ingest_parsed draw none w = (true, w)
      ingest_parsed draw (some s) w = in_session (ingest_dino_sighting draw s) w

      unfoldable pub dino_handler : (World W → Draw) → Handler (World W)
      dino_handler draws fields w = ingest_parsed (draws w) (parse_sighting rd fields) w
