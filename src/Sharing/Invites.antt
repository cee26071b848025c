-- ===== src/Sharing/Invites.antt =====
-- The limit on the uses of an invitation: `max_uses` in `join_group`.
pub mod Methods
pub mod Race
use ark_esp_backend.Prelude.{
  ℕ, String, ◌≡◌, refl, ap, inl, inr, Bool, true, false, Option, none, some, List, [], ◌∷◌, arith,
  ◌==◌, ◌≤◌, if◌then◌else◌, Bool-cases, ==_refl,
}
use ark_esp_backend.Prelude.Int.{ℤ, pos, negsuc, pos_part}
use ark_esp_backend.Prelude.Table.{find, update, delete, find_sound, change, find-update}
use ark_esp_backend.Models.{GroupInviteToken}
use ark_esp_backend.Sharing.Service.{count_use, is_unusable}

-- A negative limit, which the schema lets through, allows no use, as zero does.
abbrev pub WithinLimit : Option ℤ → ℕ → Type 0
WithinLimit none uses = Unit
WithinLimit (some m) uses = uses ≤ pos_part m

abbrev pub has_id : ℕ → GroupInviteToken → Bool
has_id id r = r.id == id

-- Ids are unique, and no invitation was used more often than its limit allows.
abbrev pub IsBounded : List GroupInviteToken → Type 0
IsBounded [] = Unit
IsBounded (i ∷ rest) =
    (find (has_id i.id) rest ≡ none) × WithinLimit i.max_uses i.uses_count × IsBounded rest

module _ (q p : GroupInviteToken → Bool) where
  find-delete_absent : (xs : List GroupInviteToken) → find q xs ≡ none → find q (delete p xs) ≡ none
  find-delete_absent [] h = refl
  find-delete_absent (x ∷ xs) h = ground (arith, find-delete_absent xs)

  find_other :
      (xs : List GroupInviteToken) (i : GroupInviteToken)
      → find q xs ≡ none
      → find p xs ≡ some i
      → q i ≡ false
  find_other [] i h e = ground arith
  find_other (x ∷ xs) i h e = ground (arith, find_other xs i)

update_absent :
    (p : GroupInviteToken → Bool) (f : GroupInviteToken → GroupInviteToken)
    (xs : List GroupInviteToken)
    → find p xs ≡ none
    → update p f xs ≡ xs
update_absent p f [] h = refl
update_absent p f (x ∷ xs) h = ground (arith, update_absent p f xs)

pub IsBounded-delete :
    (p : GroupInviteToken → Bool) (xs : List GroupInviteToken)
    → IsBounded xs
    → IsBounded (delete p xs)
IsBounded-delete p [] b = tt
IsBounded-delete p (x ∷ xs) b = elim (Bool-cases (p x)) [
  | inl gone ↦ rw gone (IsBounded-delete p xs b.2)
  | inr kept ↦ rw kept (find-delete_absent (has_id x.id) p xs b.0, b.1, IsBounded-delete p xs b.2)
]

flip : (a b : ℕ) → (b == a) ≡ false → (a == b) ≡ false
flip a b h = ground arith

-- A usable invitation has a use left.
count_use-WithinLimit :
    (now : ℕ) (i : GroupInviteToken)
    → is_unusable now i ≡ false
    → WithinLimit (count_use i).max_uses (count_use i).uses_count
unfolding is_unusable count_use
count_use-WithinLimit now i h = ground arith

module _ (now : ℕ) (q : GroupInviteToken → Bool) (i : GroupInviteToken)
    (usable : is_unusable now i ≡ false) where
  counted_absent :
      (id : ℕ) (xs : List GroupInviteToken)
      → find (has_id id) xs ≡ none
      → find (has_id id) (update (has_id i.id) count_use xs) ≡ none
  unfolding count_use
  counted_absent id xs h = rw (find-update (has_id id) (has_id i.id) count_use xs (λ x. refl), h)

  -- The row that the query found is the one that is counted, since ids are unique.
  pub IsBounded-count_use :
      (xs : List GroupInviteToken)
      → IsBounded xs
      → find q xs ≡ some i
      → IsBounded (update (has_id i.id) count_use xs)
  IsBounded-count_use [] b e = ground arith
  IsBounded-count_use (x ∷ xs) b e = elim (Bool-cases (q x)) [
    | inl hit ↦
        let same : x ≡ i = ground arith in
        let last : find (has_id i.id) xs ≡ none = rw (← same) b.0 in
        rw (same, ==_refl, update_absent (has_id i.id) count_use xs last)
          (unfold count_use in last, count_use-WithinLimit now i usable, b.2)
    | inr miss ↦
        let found : find q xs ≡ some i = ground arith in
        let other : has_id x.id i ≡ false = find_other (has_id x.id) q xs i b.0 found in
        rw (flip x.id i.id other)
          (counted_absent x.id xs b.0, b.1, IsBounded-count_use xs b.2 found)
  ]

pub unused : (limit : Option ℤ) → WithinLimit limit 0
unused none = tt
unused (some m) = omega arith
