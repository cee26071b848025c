-- ===== src/Topology/Numbers.antt =====
-- The number that the game gives a tribe, which no index ties to one row of its server.
use ark_esp_backend.Prelude.{
  ℕ, ◌≡◌, ◌≢◌, refl, sym, ap, fun_ext, ◌∙◌, Bool, true, false, ◌&&◌, Option, none, some, List, [],
  ◌∷◌, ◌==◌, inl, inr, Bool-cases, Option-cases, and_true, ==_iff, ==_refl, arith,
}
use ark_esp_backend.Prelude.Int.{ℤ, ◌==ℤ◌, equals_int, ==ℤ_sound, ==ℤ_refl}
use ark_esp_backend.Prelude.Table.{find, update}
use ark_esp_backend.Prelude.Unique.{has_key, HasUniqueKeys}
use ark_esp_backend.Prelude.Apart.{IsApart}
use ark_esp_backend.Models.{Tribe}
use ark_esp_backend.Topology.Tribes.{nobody, one, several, one_or_none, is_numbered, give_number}

abbrev pub id_of : Tribe → ℕ
id_of r = r.id

abbrev pub has_id : ℕ → Tribe → Bool
has_id = has_key id_of

abbrev pub shares : ℕ → Option ℤ → Tribe → Bool
shares server_id none x = false
shares server_id (some n) x = is_numbered server_id n x

-- two rows of a server have the same number
abbrev pub same_number : Tribe → Tribe → Bool
same_number r x = shares r.server_id r.ark_tribe_id x

pub record HasOwnNumbers (rows : List Tribe) : Type 0 where
  pub ids : HasUniqueKeys id_of rows
  pub numbers : IsApart same_number rows

shares-eq :
    (server_id : ℕ) (o : Option ℤ) (n : ℤ) (y : Tribe)
    → equals_int o n ≡ true
    → shares server_id o y ≡ is_numbered server_id n y
shares-eq server_id none n y h = ground arith
shares-eq server_id (some m) n y h =
    let e : m ≡ n = ==ℤ_sound m n h in ap (λ k. is_numbered server_id k y) e

-- A row with the number of a server shares it with whatever row has it.
same_number-numbered :
    (server_id : ℕ) (n : ℤ) (x : Tribe)
    → is_numbered server_id n x ≡ true
    → same_number x ≡ is_numbered server_id n
same_number-numbered server_id n x h = fun_ext λ y.
    let (a, b) = and_true (x.server_id == server_id) (equals_int x.ark_tribe_id n) h in
    let e = (==_iff x.server_id server_id).0 a in
    ap (λ v. shares v x.ark_tribe_id y) e ∙ shares-eq server_id x.ark_tribe_id n y b

-- A number that two rows had would not be apart.
pub one_or_none-several :
    (server_id : ℕ) (n : ℤ) (xs : List Tribe)
    → IsApart same_number xs
    → one_or_none (is_numbered server_id n) xs ≢ several
one_or_none-several server_id n [] u h = cc
one_or_none-several server_id n (x ∷ xs) u h = elim (Bool-cases (is_numbered server_id n x)) [
  | inr miss ↦
      let h' : one_or_none (is_numbered server_id n) xs ≡ several = rw miss at h in
      one_or_none-several server_id n xs u.1 h'
  | inl hit ↦
      let alone : find (is_numbered server_id n) xs ≡ none =
        ap (λ q. find q xs) (sym (same_number-numbered server_id n x hit)) ∙ u.0 in
      let h' : one x ≡ several = rw (hit, alone) at h in absurd cc
]

pub none_found : (p : Tribe → Bool) (xs : List Tribe) → one_or_none p xs ≡ nobody → find p xs ≡ none
none_found p [] h = refl
none_found p (x ∷ xs) h = elim (Bool-cases (p x)) [
  | inr miss ↦ let h' : one_or_none p xs ≡ nobody = rw miss at h in rw miss (none_found p xs h')
  | inl hit ↦ elim (Option-cases (find p xs)) [
    | inl alone ↦ let h' : one x ≡ nobody = rw (hit, alone) at h in absurd cc
    | inr (y, more) ↦ let h' : several ≡ nobody = rw (hit, more) at h in absurd cc
  ]
]

pub find_never :
    (q : Tribe → Bool) (xs : List Tribe) → ((x : Tribe) → q x ≡ false) → find q xs ≡ none
find_never q [] h = refl
find_never q (x ∷ xs) h = rw (h x) (find_never q xs h)

update_absent :
    (p : Tribe → Bool) (f : Tribe → Tribe) (xs : List Tribe) → find p xs ≡ none → update p f xs ≡ xs
update_absent p f [] h = refl
update_absent p f (x ∷ xs) h = elim (Bool-cases (p x)) [
  | inl hit ↦ absurd (ground (arith, hit, h))
  | inr miss ↦
      let h' : find p xs ≡ none = rw miss at h in
      rw miss (ap (λ ys. x ∷ ys) (update_absent p f xs h'))
]

-- The row of a tribe that has no number is given one that no row of its server has.
module _ (server_id : ℕ) (n : ℤ) where
  -- a row that does not have the number does not share its own with the row that is given it
  given_apart :
      (place : ℕ) (o : Option ℤ) (y : Tribe)
      → (place == server_id && equals_int o n) ≡ false
      → y.server_id ≡ server_id
      → shares place o (give_number (some n) y) ≡ false
  given_apart place none y h here = refl
  given_apart place (some m) y h here =
      elim (Bool-cases (shares place (some m) (give_number (some n) y))) [
        | inr apart ↦ apart
        | inl clash ↦
            let (a, b) = and_true (y.server_id == place) (n ==ℤ m) clash in
            let e : place ≡ server_id = sym ((==_iff y.server_id place).0 a) ∙ here in
            let e' : n ≡ m = ==ℤ_sound n m b in
            let both : (place == server_id && equals_int (some m) n) ≡ true =
              rw (e, ← e', ==_refl server_id, ==ℤ_refl n) refl in
            absurd (ground (arith, h, both))
      ]

  -- The row that an id leads to stands first, and is the only one.
  module _ (r x : Tribe) (xs : List Tribe) (u : HasUniqueKeys id_of (x ∷ xs))
      (found : find (has_id r.id) (x ∷ xs) ≡ some r) where
    first_row : (x.id == r.id) ≡ true → x ≡ r
    first_row hit = let e : some x ≡ some r = rw hit at found in cc

    none_after : (x.id == r.id) ≡ true → find (has_id r.id) xs ≡ none
    none_after hit = ap (λ k. find (has_id k) xs) (sym ((==_iff x.id r.id).0 hit)) ∙ u.0

    after_first : (x.id == r.id) ≡ false → find (has_id r.id) xs ≡ some r
    after_first miss = rw miss at found

  find-given :
      (x r : Tribe) (xs : List Tribe)
      → is_numbered server_id n x ≡ false
      → HasUniqueKeys id_of xs
      → find (has_id r.id) xs ≡ some r
      → r.server_id ≡ server_id
      → find (same_number x) xs ≡ none
      → find (same_number x) (update (has_id r.id) (give_number (some n)) xs) ≡ none
  find-given x r [] h u own place e = refl
  find-given x r (y ∷ ys) h u own place e = elim (Bool-cases (y.id == r.id)) [
    | inl hit ↦
        let here : y.server_id ≡ server_id =
          ap (λ (t : Tribe). t.server_id) (first_row r y ys u own hit) ∙ place in
        let apart = given_apart x.server_id x.ark_tribe_id y h here in
        let later : find (same_number x) ys ≡ none = ground arith in
        rw
          (
            hit,
            apart,
            update_absent (has_id r.id) (give_number (some n)) ys (none_after r y ys u own hit),
          )
          later
    | inr miss ↦
        let apart : same_number x y ≡ false = ground arith in
        let later : find (same_number x) ys ≡ none = ground arith in
        rw (miss, apart) (find-given x r ys h u.1 (after_first r y ys u own miss) place later)
  ]

  pub numbers-given :
      (r : Tribe) (xs : List Tribe)
      → HasUniqueKeys id_of xs
      → IsApart same_number xs
      → find (has_id r.id) xs ≡ some r
      → r.server_id ≡ server_id
      → find (is_numbered server_id n) xs ≡ none
      → IsApart same_number (update (has_id r.id) (give_number (some n)) xs)
  numbers-given r [] u v found place free = tt
  numbers-given r (x ∷ xs) u v found place free =
      let missed : is_numbered server_id n x ≡ false = ground arith in
      let free' : find (is_numbered server_id n) xs ≡ none = ground arith in
      elim (Bool-cases (x.id == r.id)) [
        | inl hit ↦
            let here : x.server_id ≡ server_id =
              ap (λ (t : Tribe). t.server_id) (first_row r x xs u found hit) ∙ place in
            rw
              (
                hit,
                update_absent (has_id r.id) (give_number (some n)) xs
                    (none_after r x xs u found hit),
              )
              (ap (λ k. find (is_numbered k n) xs) here ∙ free', v.1)
        | inr miss ↦
            let found' = after_first r x xs u found miss in
            rw miss (
              find-given x r xs missed u.1 found' place v.0,
              numbers-given r xs u.1 v.1 found' place free',
            )
      ]
