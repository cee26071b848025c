-- ===== src/Density/Peaks.antt =====
-- What a sequence of samples leaves of a cell: dino_density_repo.upsert_cell.
use ark_esp_backend.Prelude.{
  ℕ, max, ◌≡◌, refl, ap, ◌∙◌, true, List, [], ◌∷◌, arith, inl, inr, none, Bool-cases, and_true,
}
use ark_esp_backend.Prelude.Table.{find}
use ark_esp_backend.Prelude.Unique.{HasUniqueKeys}
use ark_esp_backend.Models.{World}
use ark_esp_backend.Topology.Session.{names_are_unique}
use ark_esp_backend.Sightings.Fields.{Draw}
use ark_esp_backend.Density.Cells.{CellKey, same_key, is_cell, is_referable}
use ark_esp_backend.Density.Samples.{
  Sample, store_samples, IsFresh, all_referable, all_referable-densities, counts_of, highest,
  last_or, peak_in, last_in, peak, latest, sample_stored, peak_after, latest_after,
}

max_assoc : (a b c : ℕ) → max (max a b) c ≡ max a (max b c)
max_assoc a b c = omega arith

module _ {W : Type 0} (draws : World W → Draw) (fresh : IsFresh draws) where
  pub record IsReady (samples : List Sample) (w : World W) : Type 0 where
    pub ids : HasUniqueKeys (λ r. r.id) w.densities
    pub names : names_are_unique w.tribes ≡ true
    pub known : all_referable samples w ≡ true

  -- Samples that are stored one by one leave in each cell, as `count_max`, the highest count that was
  -- sampled for it, unless it had a higher one before, and as `count_last` the last count that was
  -- sampled for it; and every sample is stored. This is where ids are unique and drawn fresh,
  -- names of tribes are unique, and the servers and tribes of the samples are in the database.
  pub samples_peak_and_last :
      (samples : List Sample) (w : World W)
      → IsReady samples w
      → ((store_samples draws samples w).0 ≡ true)
        × ((k : CellKey)
            → (peak k (store_samples draws samples w).1
                ≡ max (peak k w) (highest (counts_of k samples)))
              × (latest k (store_samples draws samples w).1
                  ≡ last_or (latest k w) (counts_of k samples)))
  samples_peak_and_last [] w r = (refl, λ k. (omega arith, refl))
  samples_peak_and_last (s ∷ rest) w r =
      let (k, ks) = and_true (is_referable s.key none w) (all_referable rest w) r.known in
      let (rows, e, h) = sample_stored draws s w (fresh w) r.ids r.names k in
      let (b, later) =
        samples_peak_and_last rest (record w { densities = rows })
          (record {
            ids = h.unique;
            names = r.names;
            known = rw (all_referable-densities rest w rows) ks;
          }) in
      (
        rw e b,
        λ k.
            let (p, l) = later k in
            let p' = peak_after draws s w rows h k in
            let l' = latest_after draws s w rows h k in
            elim (Bool-cases (same_key s.key k)) [
              | inl own ↦
                  let now : peak_in (find (is_cell k) rows) ≡ max (peak k w) s.count =
                    rw own at p' in
                  let now' : last_in (find (is_cell k) rows) ≡ s.count = rw own at l' in
                  (
                    rw (e, own)
                        (p
                          ∙ (ap (λ n. max n (highest (counts_of k rest))) now
                              ∙ max_assoc (peak k w) s.count (highest (counts_of k rest)))),
                    rw (e, own) (l ∙ ap (λ n. last_or n (counts_of k rest)) now'),
                  )
              | inr other ↦
                  let now : peak_in (find (is_cell k) rows) ≡ peak k w = rw other at p' in
                  let now' : last_in (find (is_cell k) rows) ≡ latest k w = rw other at l' in
                  (
                    rw (e, other) (p ∙ ap (λ n. max n (highest (counts_of k rest))) now),
                    rw (e, other) (l ∙ ap (λ n. last_or n (counts_of k rest)) now'),
                  )
            ],
      )
