-- ===== src/Density/Counting.antt =====
-- `counts[...] += 1`: how many rows stand in each cell.
use ark_esp_backend.Prelude.{
  ℕ, suc, ◌+◌, String, ◌≡◌, refl, Bool, true, false, ◌||◌, ◌⊎◌, Option, none, some, List, [], ◌∷◌,
  str_eq, if◌then◌else◌, map, arith, Bool-cases, Option-cases, inl, inr, and_true, eq_iff, eq_refl,
}
use ark_esp_backend.Prelude.Int.{◌==ℤ◌, ==ℤ_sound, ==ℤ_refl}
use ark_esp_backend.Prelude.Double.{Double}
use Prim.Native.String.{◌++◌ as append}
use ark_esp_backend.Density.Places.{is_in, stands, has_no_floor, Agrees, cell_of-Agrees}
use mathlib.Core.Path.{subst}
use ark_esp_backend.Sightings.Fields.{bind}
use ark_esp_backend.Density.Rooms.{Entity, Redis, Cell, same_cell, cell_of, room_suffix, drop_last}
use Prim.Native.String.{len}

-- `counts[k] += 1` in a dict that keeps the order of its insertions
module _ {K : Type 0} (same : K → K → Bool) where
  abbrev pub increment : K → List (K × ℕ) → List (K × ℕ)
  increment k [] = (k, 1) ∷ []
  increment k ((c, n) ∷ rest) =
      let rest' = increment k rest in if same c k then (c, suc n) ∷ rest else (c, n) ∷ rest'

  abbrev pub get_count : K → List (K × ℕ) → ℕ
  get_count k [] = 0
  get_count k ((c, n) ∷ rest) = if same c k then n else get_count k rest

  -- One more under the key that is counted, and none under another.
  get_count-increment :
      ((a b : K) → same a b ≡ true → a ≡ b)
      → (k c : K) (counts : List (K × ℕ))
      → get_count k (increment c counts)
        ≡ (if same c k then suc (get_count k counts) else get_count k counts)
  get_count-increment sound k c [] = refl
  get_count-increment sound k c ((e, n) ∷ rest) =
      let later = get_count-increment sound k c rest in
      elim (Bool-cases (same e c)) [
        | inl here ↦
            let is_c : e ≡ c = sound e c here in
            let agree : same c k ≡ same e k = rw is_c refl in
            elim (Bool-cases (same e k)) [
              | inl hit ↦ rw (here, agree, hit) refl
              | inr miss ↦ rw (here, agree, miss) refl
            ]
        | inr there ↦ elim (Bool-cases (same e k)) [
          | inr miss ↦ rw (there, miss) later
          | inl hit ↦ elim (Bool-cases (same c k)) [
            | inr other ↦ rw (there, hit, other) refl
            | inl both ↦
                let is_k : c ≡ k = sound c k both in
                let clash : same e c ≡ true = rw is_k hit in absurd (ground (arith, there, clash))
          ]
        ]
      ]

abbrev pub Counts : Type 0
Counts = List (Cell × ℕ)

abbrev pub count_if : Option Cell → Counts → Counts
count_if none counts = counts
count_if (some k) counts = increment same_cell k counts

-- what the pipeline of HMGETs gives for the members of a room
abbrev pub entities : Redis → String → ℕ → List Entity
entities redis room_key floor =
    let entity_prefix = append (drop_last (len room_suffix) room_key) ":entity:" in
    map (λ member. redis.hmget (append entity_prefix member)) (redis.zrangebyscore room_key floor)

module _ (W : Type 0) ⦃d : Double W⦄ (size : ℕ) where
  -- the loop over the rows; `none` is an exception
  unfoldable pub count_rows : List Entity → Counts → Option Counts
  count_rows [] counts = some counts
  count_rows (row ∷ rows) counts =
      bind (cell_of W size row) λ cell. count_rows rows (count_if cell counts)

  unfoldable pub collect_room : Redis → String → ℕ → Option Counts
  collect_room redis room_key floor = count_rows (entities redis room_key floor) []

same_cell_sound : (a b : Cell) → same_cell a b ≡ true → a ≡ b
same_cell_sound a b h =
    let (x, h1) = and_true (a.cell_x ==ℤ b.cell_x) _ h in
    let (y, h2) = and_true (a.cell_y ==ℤ b.cell_y) _ h1 in
    let (t, h3) = and_true (str_eq a.tribe b.tribe) _ h2 in
    let ex = ==ℤ_sound a.cell_x b.cell_x x in
    let ey = ==ℤ_sound a.cell_y b.cell_y y in
    let et = (eq_iff a.tribe b.tribe).0 t in let em = ==ℤ_sound a.team b.team h3 in cc

same_cell_refl : (a : Cell) → same_cell a a ≡ true
same_cell_refl a = rw (==ℤ_refl a.cell_x, ==ℤ_refl a.cell_y, eq_refl, ==ℤ_refl a.team) refl

-- the rows that stand in a cell
abbrev pub rows_in : (W : Type 0) ⦃d : Double W⦄ → ℕ → Cell → List Entity → ℕ
rows_in W size k [] = 0
rows_in W size k (row ∷ rows) =
    let rest = rows_in W size k rows in if stands W size k row then suc rest else rest

count_if-count :
    (k : Cell) (o : Option Cell) (counts : Counts)
    → get_count same_cell k (count_if o counts)
      ≡ (if is_in k o then suc (get_count same_cell k counts) else get_count same_cell k counts)
count_if-count k none counts = refl
count_if-count k (some c) counts = get_count-increment same_cell same_cell_sound k c counts

-- whether the place of some row that counts has no floor
abbrev pub raises : (W : Type 0) ⦃d : Double W⦄ → ℕ → List Entity → Bool
raises W size [] = false
raises W size (row ∷ rows) = has_no_floor W size row || raises W size rows

abbrev pub IsCounted :
    (W : Type 0) ⦃d : Double W⦄ → ℕ → List Entity → Counts → Option Counts → Type 0
IsCounted W size rows before result =
    ((raises W size rows ≡ true) × (result ≡ none))
    ⊎ ((after : Counts) × (raises W size rows ≡ false)
        × (result ≡ some after)
        × ((k : Cell)
            → get_count same_cell k after ≡ get_count same_cell k before + rows_in W size k rows))

rows-IsCounted :
    (W : Type 0) ⦃d : Double W⦄ (size : ℕ) (rows : List Entity) (before : Counts)
    → IsCounted W size rows before (count_rows W size rows before)
unfolding count_rows
rows-IsCounted W size [] before = inr (before, refl, refl, λ k. omega arith)
rows-IsCounted W size (row ∷ rows) before =
    let agrees = cell_of-Agrees W size row in
    elim (Option-cases (cell_of W size row)) [
      | inl fails ↦
          let failing : has_no_floor W size row ≡ true = rw fails at agrees in
          inl (rw failing refl, rw fails refl)
      | inr (o, e) ↦
          let (fine, same) =
            subst (λ t. Agrees W size t (has_no_floor W size row) λ k. stands W size k row) e
              agrees in
          elim (rows-IsCounted W size rows (count_if o before)) [
            | inl (some_row, stops) ↦ inl (rw (fine, some_row) refl, rw e stops)
            | inr (after, none_raises, done, counted) ↦ inr (
              after,
              rw (fine, none_raises) refl,
              rw e done,
              λ k. rw (same k) (ground (arith, counted k, count_if-count k o before)),
            )
          ]
    ]

-- What is counted for a cell of a room is how many of its rows are tamed dinos of the tribe and the
-- team of the cell whose coordinates read as numbers with the floors of the cell; unless some tamed
-- dino of a tribe has a team and coordinates that can be read and no floor, and then the count of the
-- whole room is an exception.
pub collect_room_counts :
    (W : Type 0) ⦃d : Double W⦄ (size : ℕ) (redis : Redis) (room_key : String) (floor : ℕ)
    → IsCounted W size (entities redis room_key floor) [] (collect_room W size redis room_key floor)
unfolding collect_room
collect_room_counts W size redis room_key floor =
    rows-IsCounted W size (entities redis room_key floor) []
