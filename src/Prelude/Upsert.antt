-- ===== src/Prelude/Upsert.antt =====
-- Find a row by a condition and change it, or add a fresh one: the way the repositories write the
-- tables of observations. `none` is the IntegrityError of a fresh id that is taken.
use mathlib.Core.Path.{◌≡◌, refl, ◌∙◌}
use mathlib.Core.Logic.{◌⊎◌, inl, inr}
use mathlib.Core.Bool.{Bool, true, false}
use mathlib.Core.Option.{Option, none, some}
use mathlib.Core.List.{List, ◌∷◌}
use Prim.Native.Nat.{ℕ}
use native.Mathlib.Omega.{arith}
use ark_esp_backend.Prelude.Tests.{
  if◌then◌else◌, is_some, Bool-cases, Option-cases, ==_refl, ==_iff,
}
use ark_esp_backend.Prelude.Table.{find, update, change, find-update, find_sound}
use ark_esp_backend.Prelude.Unique.{has_key, HasUniqueKeys, HasUniqueKeys-update, find_by_key}

abbrev pub value_or : {A : Type 0} → A → Option A → A
value_or a none = a
value_or a (some b) = b

module _ {A : Type 0} (id : A → ℕ) where
  abbrev put : (A → A) → A → List A → Option A → Option (List A)
  put f fresh rows none =
      if is_some (find (has_key id (id fresh)) rows) then none else some (f fresh ∷ rows)
  put f fresh rows (some r) = some (update (has_key id (id r)) f rows)

  unfoldable pub upsert : (A → Bool) → (A → A) → A → List A → Option (List A)
  upsert q f fresh rows = put f fresh rows (find q rows)

  -- What `upsert` leaves: the changed row under the condition, and every other row as it was.
  pub record IsUpserted (q : A → Bool) (f : A → A) (fresh : A) (rows after : List A) : Type 0 where
    pub same : find q after ≡ some (f (value_or fresh (find q rows)))
    pub other :
        (p : A → Bool)
        → ((x : A) → p (f x) ≡ p x)
        → ((x : A) → q x ≡ true → p x ≡ false)
        → find p after ≡ find p rows
    pub unique : HasUniqueKeys id after

  -- what an upsert asks of its change and of the fresh row
  pub record IsChange (q : A → Bool) (f : A → A) (fresh : A) : Type 0 where
    pub keeps_id : (x : A) → id (f x) ≡ id x
    pub keeps : (x : A) → q (f x) ≡ q x
    pub meets : q fresh ≡ true

  module _ (q : A → Bool) (f : A → A) (fresh : A) (rows : List A) (c : IsChange q f fresh) where
    inserted :
        HasUniqueKeys id rows
        → find q rows ≡ none
        → find (has_key id (id fresh)) rows ≡ none
        → IsUpserted q f fresh rows (f fresh ∷ rows)
    inserted u absent free = record {
      same = rw (absent, c.keeps fresh, c.meets) refl;
      other = λ p keeps apart. rw (keeps fresh, apart fresh c.meets) refl;
      unique = rw (c.keeps_id fresh) (free, u);
    }

    same_row :
        (p : A → Bool) (r x : A)
        → HasUniqueKeys id rows
        → find q rows ≡ some r
        → find p rows ≡ some x
        → id x ≡ id r
        → x ≡ r
    same_row p r x u found found' same =
        let own = find_by_key id q rows r u found in
        let own' = find_by_key id p rows x u found' in
        let own'' : find (has_key id (id r)) rows ≡ some x = rw same at own' in cc

    updated :
        (r : A)
        → HasUniqueKeys id rows
        → find q rows ≡ some r
        → IsUpserted q f fresh rows (update (has_key id (id r)) f rows)
    updated r u found = record {
      same = rw (find-update q (has_key id (id r)) f rows c.keeps, found, ==_refl) refl;
      other = λ p keeps apart.
          find-update p (has_key id (id r)) f rows keeps
          ∙ elsewhere p apart (Option-cases (find p rows));
      unique = HasUniqueKeys-update id (has_key id (id r)) f rows c.keeps_id u;
    }
      where
        elsewhere :
            (p : A → Bool)
            → ((x : A) → q x ≡ true → p x ≡ false)
            → ((find p rows ≡ none) ⊎ ((x : A) × (find p rows ≡ some x)))
            → change (has_key id (id r)) f (find p rows) ≡ find p rows
        elsewhere p apart (inl absent) = rw absent refl
        elsewhere p apart (inr (x, e)) = elim (Bool-cases (has_key id (id r) x)) [
          | inr miss ↦ rw (e, miss) refl
          | inl hit ↦
              let same : x ≡ r = same_row p r x u found e ((==_iff (id x) (id r)).0 hit) in
              let not_p = apart r (find_sound q rows r found) in
              let is_p = find_sound p rows x e in absurd (ground arith)
        ]

    pub upsert-IsUpserted :
        (after : List A)
        → HasUniqueKeys id rows
        → upsert q f fresh rows ≡ some after
        → IsUpserted q f fresh rows after
    unfolding upsert
    upsert-IsUpserted after u done = elim (Option-cases (find q rows)) [
      | inr (r, found) ↦
          let e : some (update (has_key id (id r)) f rows) ≡ some after = rw found at done in
          let same : update (has_key id (id r)) f rows ≡ after = cc in
          rw (← same) (updated r u found)
      | inl absent ↦ elim (Option-cases (find (has_key id (id fresh)) rows)) [
        | inr (x, taken) ↦ absurd (ground (arith, absent, taken, done))
        | inl free ↦
            let e : some (f fresh ∷ rows) ≡ some after = rw (absent, free) at done in
            let same : f fresh ∷ rows ≡ after = cc in rw (← same) (inserted u absent free)
      ]
    ]

  -- With a fresh id that is free, the row can be written.
  pub upsert_returns :
      (q : A → Bool) (f : A → A) (fresh : A) (rows : List A)
      → find (has_key id (id fresh)) rows ≡ none
      → (after : List A) × (upsert q f fresh rows ≡ some after)
  unfolding upsert
  upsert_returns q f fresh rows free = elim (Option-cases (find q rows)) [
    | inr (r, found) ↦ (update (has_key id (id r)) f rows, rw found refl)
    | inl absent ↦ (f fresh ∷ rows, rw (absent, free) refl)
  ]
