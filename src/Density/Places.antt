-- ===== src/Density/Places.antt =====
-- Where an entity stands, said of its texts alone, and what `_collect_room` counts it for.
use ark_esp_backend.Prelude.{
  ℕ, String, ◌≡◌, refl, Bool, true, false, not, ◌&&◌, is_some, Option, none, some, str_eq,
  if◌then◌else◌, arith, Bool-cases, Option-cases, inl, inr, eq_iff, ◌∙◌,
}
use ark_esp_backend.Prelude.Int.{ℤ, pos, ◌==ℤ◌}
use ark_esp_backend.Prelude.Double.{Double}
use ark_esp_backend.Topology.Text.{parse_int}
use ark_esp_backend.Sightings.Fields.{bind}
use ark_esp_backend.Density.Rooms.{
  Entity, Cell, same_cell, cell_of, is_text, or_empty, team_of, numbers,
}

-- the number that the text of a team stands for: nothing stands for zero
abbrev pub read_team : Option String → Option ℤ
read_team none = some (pos 0)
read_team (some v) = if str_eq v "" then some (pos 0) else parse_int v

abbrev pub is_value : Option ℤ → ℤ → Bool
is_value none i = false
is_value (some n) i = n ==ℤ i

abbrev pub is_filled : Option String → Bool
is_filled none = false
is_filled (some v) = not (str_eq v "")

abbrev pub is_in : Cell → Option Cell → Bool
is_in k none = false
is_in k (some c) = same_cell c k

module _ (W : Type 0) ⦃d : Double W⦄ (size : ℕ) where
  abbrev pub floor_of : Option W → Option ℤ
  floor_of o = bind o λ w. d.floor_div w size

  -- The entity is a tamed dino of the tribe and the team of the cell, and its place is in the cell.
  abbrev pub stands : Cell → Entity → Bool
  stands k row =
      is_text row.cat "dino"
      && (is_text row.tamed "1"
          && ((not (str_eq k.tribe "") && is_text row.tribe k.tribe)
              && (is_value (read_team row.team) k.team
                  && (is_value (floor_of (bind row.x d.parse)) k.cell_x
                      && is_value (floor_of (bind row.y d.parse)) k.cell_y))))

  -- The entity is a tamed dino of a tribe whose team and place can be read, and the place has no
  -- floor.
  abbrev pub has_no_floor : Entity → Bool
  has_no_floor row =
      is_text row.cat "dino"
      && (is_text row.tamed "1"
          && (is_filled row.tribe
              && (is_some (read_team row.team)
                  && (is_some (bind row.x d.parse)
                      && (is_some (bind row.y d.parse)
                          && not (
                              is_some (floor_of (bind row.x d.parse))
                              && is_some (floor_of (bind row.y d.parse))))))))

  -- what a row counts for, against what is said of its texts
  abbrev pub Agrees : Option (Option Cell) → Bool → (Cell → Bool) → Type 0
  Agrees none failing standing = failing ≡ true
  Agrees (some o) failing standing = (failing ≡ false) × ((k : Cell) → standing k ≡ is_in k o)

  numbers-Agrees :
      (tribe : String) (team : Option ℤ) (x y : Option W)
      → Agrees
          (numbers W size tribe team x y)
          (is_some team
            && (is_some x && (is_some y && not (is_some (floor_of x) && is_some (floor_of y)))))
          (λ k.
            str_eq tribe k.tribe
            && (is_value team k.team
                && (is_value (floor_of x) k.cell_x && is_value (floor_of y) k.cell_y)))
  numbers-Agrees tribe none x y = (refl, λ k. ground arith)
  numbers-Agrees tribe (some team) none y = (refl, λ k. ground arith)
  numbers-Agrees tribe (some team) (some x) none = (ground arith, λ k. ground arith)
  numbers-Agrees tribe (some team) (some x) (some y) = elim (Option-cases (d.floor_div x size)) [
    | inl wide ↦ rw wide refl
    | inr (i, e) ↦ elim (Option-cases (d.floor_div y size)) [
      | inl wide ↦ rw (e, wide) refl
      | inr (j, e') ↦ rw (e, e') (refl, λ k. ground arith)
    ]
  ]

  Agrees-ext :
      (o : Option (Option Cell)) (failing : Bool) (a b : Cell → Bool)
      → ((k : Cell) → b k ≡ a k)
      → Agrees o failing a
      → Agrees o failing b
  Agrees-ext none failing a b same h = h
  Agrees-ext (some o) failing a b same h = (h.0, λ k. same k ∙ h.1 k)

  read_team-team_of : (o : Option String) → team_of (or_empty o) ≡ read_team o
  read_team-team_of none = refl
  read_team-team_of (some v) = refl

  filled_tribe :
      (tribe v : String)
      → str_eq tribe "" ≡ false
      → (not (str_eq v "") && str_eq tribe v) ≡ str_eq tribe v
  filled_tribe tribe v filled = elim (Bool-cases (str_eq tribe v)) [
    | inl same ↦ let e : tribe ≡ v = (eq_iff tribe v).0 same in ground (arith, rw e at filled)
    | inr other ↦ ground arith
  ]

  empty_tribe :
      (tribe v : String) → str_eq tribe "" ≡ true → (not (str_eq v "") && str_eq tribe v) ≡ false
  empty_tribe tribe v empty = elim (Bool-cases (str_eq tribe v)) [
    | inl same ↦ let e : tribe ≡ v = (eq_iff tribe v).0 same in ground (arith, rw e at empty)
    | inr other ↦ ground arith
  ]

  pub cell_of-Agrees :
      (row : Entity) → Agrees (cell_of W size row) (has_no_floor row) (λ k. stands k row)
  unfolding cell_of
  cell_of-Agrees row = elim (Bool-cases (is_text row.cat "dino")) [
    | inr wild ↦ rw wild (refl, λ k. refl)
    | inl dino ↦ elim (Bool-cases (is_text row.tamed "1")) [
      | inr wild ↦ rw (dino, wild) (refl, λ k. refl)
      | inl tamed ↦ elim (Option-cases row.tribe) [
        | inl absent ↦ rw (dino, tamed, absent) (refl, λ k. ground arith)
        | inr (tribe, e) ↦ elim (Bool-cases (str_eq tribe "")) [
          | inl empty ↦
              rw (dino, tamed, e, empty) (refl, λ k. rw (empty_tribe tribe k.tribe empty) refl)
          | inr filled ↦
              rw (dino, tamed, e, filled, read_team-team_of row.team)
                (Agrees-ext _ _ _ _ (λ k. rw (filled_tribe tribe k.tribe filled) refl)
                  (numbers-Agrees tribe (read_team row.team) (bind row.x d.parse)
                    (bind row.y d.parse)))
        ]
      ]
    ]
  ]
