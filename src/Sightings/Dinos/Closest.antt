-- ===== src/Sightings/Dinos/Closest.antt =====
-- The search of tamed_dino_repo.upsert_dino for the dino that a sighting is of.
use ark_esp_backend.Prelude.{Option, none, some, List, [], ◌∷◌, if◌then◌else◌}
use ark_esp_backend.Prelude.Double.{Double}
use ark_esp_backend.Sightings.Fields.{bind}

module _ {W : Type 0} ⦃d : Double W⦄ where
  abbrev plus : Option W → Option W → Option W
  plus a b = bind a λ a'. bind b λ b'. some (d.add a' b')

  -- `none` is an OverflowError.
  unfoldable pub distance_sq : (a_x a_y a_z : Option W) (x y z : W) → Option W
  distance_sq none a_y a_z x y z = some d.infinity
  distance_sq (some a_x) none a_z x y z = some d.infinity
  distance_sq (some a_x) (some a_y) none x y z = some d.infinity
  distance_sq (some a_x) (some a_y) (some a_z) x y z =
      plus (plus (d.square (d.sub a_x x)) (d.square (d.sub a_y y))) (d.square (d.sub a_z z))

  -- `_MATCH_RADIUS * _MATCH_RADIUS`
  abbrev pub match_radius_sq : W
  match_radius_sq = d.of_ℕ 9000000

  -- `for candidate in candidates`, with the best distance and the dino so far
  unfoldable pub closest :
      {A : Type 0} (distance : A → Option W) → W → Option A → List A → Option (Option A)
  closest distance best_distance_sq dino [] = some dino
  closest distance best_distance_sq dino (candidate ∷ rest) = bind (distance candidate) λ dist.
      closest distance (if d.le dist best_distance_sq then dist else best_distance_sq)
        (if d.le dist best_distance_sq then some candidate else dino) rest
