-- ===== src/Sightings/Structures/Store.antt =====
-- The table of structures as a map: ark_structure_repo.upsert_structure and delete_by_hash.
use ark_esp_backend.Prelude.{
  ℕ, String, ◌≡◌, Bool, true, ◌&&◌, Option, none, some, List, [], ◌∷◌, ◌==◌, str_eq, if◌then◌else◌,
}
use ark_esp_backend.Prelude.Table.{find}
use ark_esp_backend.Prelude.Unique.{has_key, HasUniqueKeys}
use ark_esp_backend.Prelude.Apart.{IsApart}
use ark_esp_backend.Models.{ArkStructure, World}
use ark_esp_backend.Topology.Session.{names_are_unique, in_session}
use ark_esp_backend.Sightings.Fields.{Draw, newer}
use ark_esp_backend.Sightings.Structures.Rows.{
  Observation, is_structure, is_referable, upsert_structure, delete_by_hash,
}

-- what is known of a structure, beside its id
pub record Known (W : Type 0) : Type 0 where
  pub class_code : String
  pub tribe_id : Option ℕ
  pub x : Option W
  pub y : Option W
  pub z : Option W
  pub health : Option W
  pub first_seen_at : ℕ
  pub last_seen_at : ℕ
  pub updated_at : Option ℕ
  pub reporter : Option ℕ

pub data Report (W : Type 0) : Type 0 where
  seen : (server_id : ℕ) (object_hash : String) → Observation W → Report W
  gone : (server_id : ℕ) (object_hash : String) → Report W

-- The promise: a map from the server and the hash to what is known.
abbrev pub Map : Type 0 → Type 0
Map W = ℕ → String → Option (Known W)

abbrev pub is_key : ℕ → String → ℕ → String → Bool
is_key server_id object_hash m u = server_id == m && str_eq object_hash u

module _ {W : Type 0} where
  abbrev pub first_known : Observation W → Known W
  first_known o = record {
    class_code = o.class_code;
    tribe_id = o.tribe_id;
    x = o.x;
    y = o.y;
    z = o.z;
    health = o.health;
    first_seen_at = o.observed_at;
    last_seen_at = o.observed_at;
    updated_at = some o.observed_at;
    reporter = o.reported_by_account_id;
  }

  abbrev pub merge : Observation W → Option (Known W) → Known W
  merge o none = first_known o
  merge o (some k) = record {
    class_code = o.class_code;
    tribe_id = newer o.tribe_id k.tribe_id;
    x = newer o.x k.x;
    y = newer o.y k.y;
    z = newer o.z k.z;
    health = newer o.health k.health;
    first_seen_at = k.first_seen_at;
    last_seen_at = o.observed_at;
    updated_at = some o.observed_at;
    reporter = newer o.reported_by_account_id k.reporter;
  }

  abbrev pub note : Report W → Map W → Map W
  note (seen server_id object_hash o) known m u =
      if is_key server_id object_hash m u then some (merge o (known m u)) else known m u
  note (gone server_id object_hash) known m u =
      if is_key server_id object_hash m u then none else known m u

  abbrev pub note_all : List (Report W) → Map W → Map W
  note_all [] known = known
  note_all (r ∷ rest) known = note_all rest (note r known)

  abbrev pub forget : Option (ArkStructure W) → Option (Known W)
  forget none = none
  forget (some r) = some (record {
    class_code = r.class_code;
    tribe_id = r.tribe_id;
    x = r.x;
    y = r.y;
    z = r.z;
    health = r.health;
    first_seen_at = r.first_seen_at;
    last_seen_at = r.last_seen_at;
    updated_at = r.updated_at;
    reporter = r.last_updated_by_account_id;
  })

  -- the map that the table stands for: ids and the order of the rows are forgotten
  abbrev pub map_of : World W → Map W
  map_of w m u = forget (find (is_structure m u) w.structures)

  -- no two rows have the server and the hash of each other
  abbrev pub same_structure : ArkStructure W → ArkStructure W → Bool
  same_structure r x = is_structure r.server_id r.object_hash x

  abbrev pub known_to : Report W → World W → Bool
  known_to (seen server_id object_hash o) w = is_referable server_id o w
  known_to (gone server_id object_hash) w = true

  abbrev pub all_known_to : List (Report W) → World W → Bool
  all_known_to [] w = true
  all_known_to (r ∷ rest) w = known_to r w && all_known_to rest w

  pub record IsReady (reports : List (Report W)) (w : World W) : Type 0 where
    pub ids : HasUniqueKeys (λ r. r.id) w.structures
    pub hashes : IsApart same_structure w.structures
    pub names : names_are_unique w.tribes ≡ true
    pub known : all_known_to reports w ≡ true

abbrev pub IsFresh : {W : Type 0} → (World W → Draw) → Type 0
IsFresh {W} draws = (w : World W) → find (has_key (λ r. r.id) (draws w).row) w.structures ≡ none

module _ {W : Type 0} (draws : World W → Draw) where
  -- one session for each report
  unfoldable pub apply : Report W → World W → Bool × World W
  apply (seen server_id object_hash o) w =
      in_session (upsert_structure (draws w).row server_id object_hash o) w
  apply (gone server_id object_hash) w = in_session (delete_by_hash server_id object_hash) w

  abbrev pub apply_all : List (Report W) → World W → Bool × World W
  apply_all [] w = (true, w)
  apply_all (r ∷ rest) w =
      let (b, w1) = apply r w in let (bs, w2) = apply_all rest w1 in (b && bs, w2)
