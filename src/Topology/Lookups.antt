-- ===== src/Topology/Lookups.antt =====
-- backend_python/src/repositories/ark_lookups_repo.py.
use ark_esp_backend.Prelude.{
  ℕ, String, Bool, ◌||◌, Option, none, some, ◌∷◌, ◌==◌, str_eq, if◌then◌else◌, is_some, or_raise,
  pure, ◌>>=◌, ◌>>◌,
}
use ark_esp_backend.Prelude.Table.{find}
use ark_esp_backend.Models.{StructureClass, Species, World}
use ark_esp_backend.Topology.Session.{integrity, Work, query, rollback, flush_or}

abbrev pub has_code : String → StructureClass → Bool
has_code code r = str_eq r.code code

abbrev pub has_blueprint : String → Species → Bool
has_blueprint path r = str_eq r.blueprint_path path

abbrev pub new_class : String → Bool → StructureClass
new_class code is_turret = record {
  code = code;
  category = if is_turret then "turret" else "unknown";
  label = some code;
  is_turret = is_turret;
}

abbrev pub new_species : ℕ → String → Species
new_species id path = record { id = id; blueprint_path = path; display_name = path }

module _ {W : Type 0} where
  unfoldable pub insert_class : StructureClass → World W → Option (World W)
  insert_class r w =
      if is_some (find (has_code r.code) w.structure_classes)
      then none
      else some (record w { structure_classes = r ∷ w.structure_classes })

  unfoldable pub insert_species : Species → World W → Option (World W)
  insert_species r w =
      if is_some (find (λ x. x.id == r.id) w.species)
        || is_some (find (has_blueprint r.blueprint_path) w.species)
      then none
      else some (record w { species = r ∷ w.species })

  abbrev class_or_insert : String → Bool → Option StructureClass → Work W StructureClass
  class_or_insert code is_turret (some row) = pure row
  class_or_insert code is_turret none =
      flush_or (insert_class (new_class code is_turret)) (new_class code is_turret) do
        rollback
        found ← query (λ w. find (has_code code) w.structure_classes)
        or_raise found integrity

  unfoldable pub get_or_create_structure_class : String → Bool → Work W StructureClass
  get_or_create_structure_class code is_turret = do
    found ← query (λ w. find (has_code code) w.structure_classes)
    class_or_insert code is_turret found

  abbrev species_or_insert : ℕ → String → Option Species → Work W Species
  species_or_insert id path (some row) = pure row
  species_or_insert id path none =
      flush_or (insert_species (new_species id path)) (new_species id path) do
        rollback
        found ← query (λ w. find (has_blueprint path) w.species)
        or_raise found integrity

  unfoldable pub get_or_create_species : ℕ → String → Work W Species
  get_or_create_species id blueprint_path = do
    found ← query (λ w. find (has_blueprint blueprint_path) w.species)
    species_or_insert id blueprint_path found
