-- ===== src/Density/Samples.antt =====
-- One sample in the view of a cell: dino_density_repo.upsert_cell.
use ark_esp_backend.Prelude.{
  ℕ, max, ◌≡◌, refl, ap, ◌∙◌, Bool, true, false, ◌&&◌, Option, none, some, List, [], ◌∷◌, ◌==◌,
  if◌then◌else◌, map, arith, inl, inr, Bool-cases, and_true, ==_iff, ==_refl,
}
use mathlib.Core.Path.{subst, sym}
use ark_esp_backend.Prelude.Int.{◌==ℤ◌, ==ℤ_sound, ==ℤ_refl}
use ark_esp_backend.Prelude.Table.{find, select}
use ark_esp_backend.Prelude.Unique.{has_key, HasUniqueKeys}
use ark_esp_backend.Prelude.Upsert.{
  upsert, value_or, upsert_returns, IsChange, IsUpserted, upsert-IsUpserted,
}
use ark_esp_backend.Models.{DinoDensity, World}
use ark_esp_backend.Topology.Session.{names_are_unique, commit, in_session}
use ark_esp_backend.Sightings.Fields.{Draw}
use ark_esp_backend.Density.Cells.{
  CellKey, key_of, same_key, is_cell, new_density, resample, is_referable, upsert_cell,
}

pub record Sample : Type 0 where
  pub key : CellKey
  pub count : ℕ
  pub observed_at : ℕ

module _ {W : Type 0} (draws : World W → Draw) where
  -- a session for each sample
  unfoldable pub store_sample : Sample → World W → Bool × World W
  store_sample s w = in_session (upsert_cell (draws w).row s.key s.count s.observed_at none) w

  abbrev pub store_samples : List Sample → World W → Bool × World W
  store_samples [] w = (true, w)
  store_samples (s ∷ rest) w =
      let (b, w1) = store_sample s w in let (bs, w2) = store_samples rest w1 in (b && bs, w2)

-- The ids that are drawn are free.
abbrev pub IsFresh : {W : Type 0} → (World W → Draw) → Type 0
IsFresh {W} draws = (w : World W) → find (has_key (λ r. r.id) (draws w).row) w.densities ≡ none

-- The server and the tribe of every sample are in the database.
abbrev pub all_referable : {W : Type 0} → List Sample → World W → Bool
all_referable [] w = true
all_referable (s ∷ rest) w = is_referable s.key none w && all_referable rest w

pub all_referable-densities :
    {W : Type 0} (samples : List Sample) (w : World W) (rows : List DinoDensity)
    → all_referable samples (record w { densities = rows }) ≡ all_referable samples w
all_referable-densities [] w rows = refl
all_referable-densities (s ∷ rest) w rows = rw (all_referable-densities rest w rows) refl

-- the counts of the samples of a cell, the highest of them, and the last one
abbrev pub counts_of : CellKey → List Sample → List ℕ
counts_of k samples =
    map (λ (s : Sample). s.count) (select (λ (s : Sample). same_key s.key k) samples)

abbrev pub highest : List ℕ → ℕ
highest [] = 0
highest (n ∷ ns) = max n (highest ns)

abbrev pub last_or : ℕ → List ℕ → ℕ
last_or n [] = n
last_or n (m ∷ ns) = last_or m ns

-- what a table shows of a cell: nothing counts as zero
abbrev pub peak_in : Option DinoDensity → ℕ
peak_in none = 0
peak_in (some r) = r.count_max

abbrev pub last_in : Option DinoDensity → ℕ
last_in none = 0
last_in (some r) = r.count_last

abbrev pub peak : {W : Type 0} → CellKey → World W → ℕ
peak k w = peak_in (find (is_cell k) w.densities)

abbrev pub latest : {W : Type 0} → CellKey → World W → ℕ
latest k w = last_in (find (is_cell k) w.densities)

same_key_sound : (a b : CellKey) → same_key a b ≡ true → a ≡ b
same_key_sound a b h =
    let (s, h1) = and_true (a.server_id == b.server_id) _ h in
    let (t, h2) = and_true (a.tribe_id == b.tribe_id) _ h1 in
    let (c, h3) = and_true (a.cell_size_units == b.cell_size_units) _ h2 in
    let (x, h4) = and_true (a.cell_x ==ℤ b.cell_x) _ h3 in
    let (y, z) = and_true (a.cell_y ==ℤ b.cell_y) _ h4 in
    let es = (==_iff a.server_id b.server_id).0 s in
    let et = (==_iff a.tribe_id b.tribe_id).0 t in
    let ec = (==_iff a.cell_size_units b.cell_size_units).0 c in
    let ex = ==ℤ_sound a.cell_x b.cell_x x in
    let ey = ==ℤ_sound a.cell_y b.cell_y y in
    let ez = (==_iff a.bucket_start b.bucket_start).0 z in cc

same_key_refl : (a : CellKey) → same_key a a ≡ true
same_key_refl a =
    rw
      (
        ==_refl a.server_id,
        ==_refl a.tribe_id,
        ==_refl a.cell_size_units,
        ==ℤ_refl a.cell_x,
        ==ℤ_refl a.cell_y,
        ==_refl a.bucket_start,
      )
      refl

module _ {W : Type 0} (draws : World W → Draw) (s : Sample) (w : World W) where
  abbrev fresh_row : DinoDensity
  fresh_row = new_density (draws w).row s.key s.count s.observed_at none

  abbrev Written : List DinoDensity → Type 0
  Written rows =
      IsUpserted (λ r. r.id) (is_cell s.key) (resample s.count s.observed_at none) fresh_row
        w.densities rows

  stored_as :
      names_are_unique w.tribes ≡ true
      → is_referable s.key none w ≡ true
      → (rows : List DinoDensity)
      → upsert
          (λ r. r.id)
          (is_cell s.key)
          (resample s.count s.observed_at none)
          fresh_row
          w.densities
        ≡ some rows
      → store_sample draws s w ≡ (true, record w { densities = rows })
  unfolding store_sample upsert_cell in_session commit
  stored_as names known rows e = rw (e, known, names) refl

  resample-IsChange :
      IsChange (λ r. r.id) (is_cell s.key) (resample s.count s.observed_at none) fresh_row
  unfolding resample
  resample-IsChange = record {
    keeps_id = λ x. refl;
    keeps = λ x. refl;
    meets = same_key_refl s.key;
  }

  pub sample_stored :
      find (has_key (λ r. r.id) (draws w).row) w.densities ≡ none
      → HasUniqueKeys (λ r. r.id) w.densities
      → names_are_unique w.tribes ≡ true
      → is_referable s.key none w ≡ true
      → (rows : List DinoDensity) × (store_sample draws s w ≡ (true, record w { densities = rows }))
        × Written rows
  sample_stored free u names known =
      let (rows, e) =
        upsert_returns (λ (r : DinoDensity). r.id) (is_cell s.key)
          (resample s.count s.observed_at none) fresh_row w.densities free in
      (
        rows,
        stored_as names known rows e,
        upsert-IsUpserted (λ r. r.id) (is_cell s.key) (resample s.count s.observed_at none)
            fresh_row w.densities resample-IsChange rows u e,
      )

  module _ (rows : List DinoDensity) (h : Written rows) (k : CellKey) where
    one_sample : find (is_cell k) rows ≡ (
        if same_key s.key k
        then some (
            resample s.count s.observed_at none (value_or fresh_row (find (is_cell k) w.densities)))
        else find (is_cell k) w.densities)
    unfolding resample
    one_sample = elim (Bool-cases (same_key s.key k)) [
      | inl own ↦
          let e : s.key ≡ k = same_key_sound s.key k own in
          rw own (
            subst
              (λ v.
                find (is_cell v) rows
                ≡ some (
                    resample s.count s.observed_at none
                      (value_or fresh_row (find (is_cell v) w.densities))))
              e h.same)
      | inr other ↦ rw other (
          h.other (is_cell k) (λ x. refl)
            λ x hit.
              let e : key_of x ≡ s.key = same_key_sound (key_of x) s.key hit in
              subst (λ v. same_key v k ≡ false) (sym e) other)
    ]

    -- one sample in the view of a cell
    pub peak_after :
        peak_in (find (is_cell k) rows)
        ≡ (if same_key s.key k then max (peak k w) s.count else peak k w)
    unfolding resample
    peak_after = elim (Bool-cases (same_key s.key k)) [
      | inl own ↦ ap peak_in one_sample ∙ rw own (seen (find (is_cell k) w.densities))
      | inr other ↦ rw (one_sample, other) refl
    ]
      where
        seen :
            (o : Option DinoDensity)
            → max (value_or fresh_row o).count_max s.count ≡ max (peak_in o) s.count
        seen none = omega arith
        seen (some r) = refl

    pub latest_after :
        last_in (find (is_cell k) rows) ≡ (if same_key s.key k then s.count else latest k w)
    unfolding resample
    latest_after = elim (Bool-cases (same_key s.key k)) [
      | inl own ↦ rw (one_sample, own) refl
      | inr other ↦ rw (one_sample, other) refl
    ]
