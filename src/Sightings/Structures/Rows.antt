-- ===== src/Sightings/Structures/Rows.antt =====
-- backend_python/src/repositories/ark_structure_repo.py.
use ark_esp_backend.Prelude.{
  ℕ, String, Bool, not, ◌&&◌, Option, none, some, List, ◌==◌, str_eq, is_some, or_raise, raise_if,
  pure, true, false, ◌>>=◌, ◌>>◌,
}
use ark_esp_backend.Prelude.Int.{ℤ}
use ark_esp_backend.Prelude.Table.{find, delete}
use ark_esp_backend.Prelude.Upsert.{upsert}
use ark_esp_backend.Models.{ArkStructure, ArkStructureTurret, StructureClass, World}
use ark_esp_backend.Topology.Session.{
  integrity, Work, query, write, try_write, commit, is_reporter, has_server, has_tribe,
}
use ark_esp_backend.Sightings.Fields.{newer}

-- `select(ArkStructure).where(server_id, object_hash)`
abbrev pub is_structure : {W : Type 0} → ℕ → String → ArkStructure W → Bool
is_structure server_id object_hash r = r.server_id == server_id && str_eq r.object_hash object_hash

-- what `upsert_structure` is told of the structure
pub record Observation (W : Type 0) : Type 0 where
  pub class_code : String
  pub tribe_id : Option ℕ
  pub x : Option W
  pub y : Option W
  pub z : Option W
  pub health : Option W
  pub observed_at : ℕ
  pub reported_by_account_id : Option ℕ

module _ {W : Type 0} where
  abbrev pub new_structure : (id server_id : ℕ) → String → Observation W → ArkStructure W
  new_structure id server_id object_hash o = record {
    id = id;
    server_id = server_id;
    object_hash = object_hash;
    class_code = o.class_code;
    tribe_id = none;
    x = none;
    y = none;
    z = none;
    health = none;
    first_seen_at = o.observed_at;
    last_seen_at = o.observed_at;
    updated_at = none;
    last_updated_by_account_id = none;
  }

  -- the assignments of `upsert_structure`
  unfoldable pub observe : Observation W → ArkStructure W → ArkStructure W
  observe o r = record r {
    class_code = o.class_code;
    tribe_id = newer o.tribe_id r.tribe_id;
    x = newer o.x r.x;
    y = newer o.y r.y;
    z = newer o.z r.z;
    health = newer o.health r.health;
    last_seen_at = o.observed_at;
    updated_at = some o.observed_at;
    last_updated_by_account_id = newer o.reported_by_account_id r.last_updated_by_account_id;
  }

  abbrev set_structures : World W → Option (List (ArkStructure W)) → Option (World W)
  set_structures w none = none
  set_structures w (some rows) = some (record w { structures = rows })

  abbrev pub put_structure :
      (id server_id : ℕ) → String → Observation W → World W → Option (World W)
  put_structure id server_id object_hash o w = set_structures w (
      upsert (λ r. r.id) (is_structure server_id object_hash) (observe o)
        (new_structure id server_id object_hash o) w.structures)

  -- the foreign keys of the row
  abbrev pub is_referable : ℕ → Observation W → World W → Bool
  is_referable server_id o w =
      has_server server_id w.servers
      && (is_some (find (λ (r : StructureClass). str_eq r.code o.class_code) w.structure_classes)
          && (has_tribe o.tribe_id w.tribes && is_reporter o.reported_by_account_id w))

  unfoldable pub upsert_structure :
      (id server_id : ℕ) → String → Observation W → Work W (ArkStructure W)
  upsert_structure id server_id object_hash o = do
    try_write (put_structure id server_id object_hash o)
    known ← query (is_referable server_id o)
    raise_if (not known) integrity
    commit
    found ← query (λ w. find (is_structure server_id object_hash) w.structures)
    or_raise found integrity

  abbrev pub has_structure_id : ℕ → ArkStructureTurret W → Bool
  has_structure_id id r = r.structure_id == id

  abbrev new_turret : ℕ → ArkStructureTurret W
  new_turret id = record { structure_id = id; ammo_count = none; range = none; is_active = none }

  unfoldable pub observe_turret :
      Option ℤ → Option W → Option Bool → ArkStructureTurret W → ArkStructureTurret W
  observe_turret ammo_count range active r = record r {
    ammo_count = newer ammo_count r.ammo_count;
    range = newer range r.range;
    is_active = newer active r.is_active;
  }

  abbrev set_turrets : World W → Option (List (ArkStructureTurret W)) → Option (World W)
  set_turrets w none = none
  set_turrets w (some rows) = some (record w { turrets = rows })

  unfoldable pub upsert_turret : ℕ → Option ℤ → Option W → Option Bool → Work W Unit
  upsert_turret id ammo_count range active = do
    try_write λ w. set_turrets w (
        upsert (λ r. r.structure_id) (has_structure_id id) (observe_turret ammo_count range active)
          (new_turret id) w.turrets)
    known ← query (λ w. is_some (find (λ r. r.id == id) w.structures))
    raise_if (not known) integrity
    commit

  -- the DELETE, which takes the turret along
  abbrev pub remove_row : ArkStructure W → World W → World W
  remove_row r w = record w {
    structures = delete (λ x. x.id == r.id) w.structures;
    turrets = delete (has_structure_id r.id) w.turrets;
  }

  abbrev delete_found : Option (ArkStructure W) → Work W Bool
  delete_found none = pure false
  delete_found (some r) = do write (remove_row r); commit; pure true

  unfoldable pub delete_by_hash : ℕ → String → Work W Bool
  delete_by_hash server_id object_hash = do
    found ← query (λ w. find (is_structure server_id object_hash) w.structures)
    delete_found found
