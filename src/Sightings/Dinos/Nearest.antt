-- ===== src/Sightings/Dinos/Nearest.antt =====
-- The search for the dino of a sighting, and the distances of the candidates.
use ark_esp_backend.Prelude.{
  ◌≡◌, refl, ap, true, false, Option, none, some, List, [], ◌∷◌, ◌++◌, ◌⊎◌, inl, inr, Bool-cases,
  arith,
}
use ark_esp_backend.Prelude.Double.{Double, IsNumber, ComparesNumbers}
use ark_esp_backend.Models.{TamedDino}
use ark_esp_backend.Sightings.Dinos.Closest.{closest, distance_sq, match_radius_sq}
use ark_esp_backend.Sightings.Dinos.Rows.{find_dino}

module _ {A : Type 0} (P : A → Type 0) where
  abbrev pub Each : List A → Type 0
  Each [] = Unit
  Each (x ∷ xs) = P x × Each xs

module _ {W A : Type 0} ⦃d : Double W⦄ (distance : A → Option W) where
  -- The distance is known, and is not NaN.
  abbrev pub IsMeasured : A → Type 0
  IsMeasured a = (w : W) × (distance a ≡ some w) × (IsNumber W w)

  abbrev pub Beyond : W → A → Type 0
  Beyond limit a = (w : W) → distance a ≡ some w → d.le w limit ≡ false

  abbrev pub NotNearer : W → A → Type 0
  NotNearer limit a = (w : W) → distance a ≡ some w → d.le limit w ≡ true

  -- `a` is within the limit, none is nearer, and those after it are further away.
  pub record IsNearest (limit : W) (candidates : List A) (a : A) : Type 0 where
    pub earlier : List A
    pub later : List A
    pub place : candidates ≡ earlier ++ a ∷ later
    pub far : W
    pub measured : distance a ≡ some far
    pub within : d.le far limit ≡ true
    pub none_nearer : Each (NotNearer far) earlier
    pub last : Each (Beyond far) later

  -- the result of the search, where there was a dino before it
  abbrev pub IsFound : W → Option A → List A → Option A → Type 0
  IsFound limit dino candidates r =
      ((r ≡ dino) × Each (Beyond limit) candidates)
      ⊎ ((a : A) × (r ≡ some a) × IsNearest limit candidates a)

  module _ ⦃o : ComparesNumbers W⦄ where
    module _ (c : A) (rest : List A) (limit : W) (dino : Option A) (far : W)
        (e : distance c ≡ some far) where
      -- the candidate takes the place of the dino so far
      nearer-IsFound :
          d.le far limit ≡ true
          → (r : Option A) → IsFound far (some c) rest r
          → IsFound limit dino (c ∷ rest) r
      nearer-IsFound nearer r (inl (same, b)) = inr (
        c,
        same,
        record {
          earlier = [];
          later = rest;
          place = refl;
          far = far;
          measured = e;
          within = nearer;
          none_nearer = tt;
          last = b;
        },
      )
      nearer-IsFound nearer r (inr (a, same, n)) = inr (
        a,
        same,
        record {
          earlier = c ∷ n.earlier;
          later = n.later;
          place = ap (λ xs. c ∷ xs) n.place;
          far = n.far;
          measured = n.measured;
          within = o.chain n.far far limit n.within nearer;
          none_nearer = ((λ w e'. let same : far ≡ w = cc in rw (← same) n.within), n.none_nearer);
          last = n.last;
        },
      )

      -- What is within the limit is not further away than what is not.
      within_further :
          IsNumber W far
          → IsNumber W limit
          → d.le far limit ≡ false
          → (w : W) → d.le w limit ≡ true
          → d.le w far ≡ true
      within_further f l further w h = elim (o.either limit far l f) [
        | inl up ↦ o.chain w limit far h up
        | inr down ↦ absurd (ground (arith, further, down))
      ]

      -- the candidate is passed over
      further-IsFound :
          IsNumber W far
          → IsNumber W limit
          → d.le far limit ≡ false
          → (r : Option A) → IsFound limit dino rest r
          → IsFound limit dino (c ∷ rest) r
      further-IsFound f l further r (inl (same, b)) =
          inl (same, ((λ w e'. let same : far ≡ w = cc in rw (← same) further), b))
      further-IsFound f l further r (inr (a, same, n)) = inr (
        a,
        same,
        record {
          earlier = c ∷ n.earlier;
          later = n.later;
          place = ap (λ xs. c ∷ xs) n.place;
          far = n.far;
          measured = n.measured;
          within = n.within;
          none_nearer = (
            (λ w e'.
                let same : far ≡ w = cc in rw (← same) (within_further f l further n.far n.within)),
            n.none_nearer,
          );
          last = n.last;
        },
      )

    searched :
        (candidates : List A) (limit : W) (dino : Option A)
        → IsNumber W limit
        → Each IsMeasured candidates
        → (r : Option A) × (closest distance limit dino candidates ≡ some r)
          × IsFound limit dino candidates r
    unfolding closest
    searched [] limit dino l m = (dino, refl, inl (refl, tt))
    searched (c ∷ rest) limit dino l m =
        let (far, e, f) = m.0 in
        elim (Bool-cases (d.le far limit)) [
          | inl nearer ↦
              let (r, e', h) = searched rest far (some c) f m.1 in
              (r, rw (e, nearer) e', nearer-IsFound c rest limit dino far e nearer r h)
          | inr further ↦
              let (r, e', h) = searched rest limit dino l m.1 in
              (r, rw (e, further) e', further-IsFound c rest limit dino far e f l further r h)
        ]

-- Where doubles are ordered away from NaN and the distance to every candidate is a number, the
-- search for the dino of a sighting that has a place ends without an exception, with the candidate
-- that is within the radius, has none nearer to the place before it and only further ones after it;
-- or with no dino, and then every candidate is outside the radius.
pub find_dino_is_nearest :
    {W : Type 0} ⦃d : Double W⦄ ⦃o : ComparesNumbers W⦄ (x y z : W)
    (candidates : List (TamedDino W))
    → IsNumber W match_radius_sq
    → Each (IsMeasured λ (r : TamedDino W). distance_sq r.x r.y r.z x y z) candidates
    → (r : Option (TamedDino W)) × (find_dino (some x) (some y) (some z) candidates ≡ some r)
      × IsFound
          (λ (a : TamedDino W). distance_sq a.x a.y a.z x y z)
          match_radius_sq
          none
          candidates
          r
unfolding find_dino
find_dino_is_nearest x y z candidates l m =
    searched (λ r. distance_sq r.x r.y r.z x y z) candidates match_radius_sq none l m
