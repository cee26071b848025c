-- ===== src/Topology/Clash.antt =====
-- `get_or_create_tribe` gives a tribe the name of another one.
use ark_esp_backend.Prelude.{
  ℕ, String, ◌≡◌, refl, ap, Bool, true, false, not, none, some, List, [], ◌∷◌, ◌==◌, str_eq,
  is_some, inl, inr, Bool-cases, Option-cases, and_true, ==_iff, ==_refl, eq_iff, eq_refl, arith,
}
use ark_esp_backend.Prelude.Table.{find, update, find_sound, find_other, find-update}
use ark_esp_backend.Prelude.Unique.{has_key, HasUniqueKeys, find_by_key}
use ark_esp_backend.Models.{Tribe}
use ark_esp_backend.Topology.Session.{is_tribe, names_are_unique}
use ark_esp_backend.Topology.Tribes.{one, several, one_or_none, rename}

abbrev id_of : Tribe → ℕ
id_of r = r.id

is_tribe-swap :
    (x y : Tribe) → is_tribe x.server_id x.name y ≡ true → is_tribe y.server_id y.name x ≡ true
is_tribe-swap x y h =
    let (a, b) = and_true (y.server_id == x.server_id) (str_eq y.name x.name) h in
    rw ((==_iff y.server_id x.server_id).0 a, (eq_iff y.name x.name).0 b, ==_refl, eq_refl) refl

-- Two rows with different ids do not have the same server and name.
different_rows :
    (xs : List Tribe) (i j : ℕ) (x y : Tribe)
    → names_are_unique xs ≡ true
    → find (has_key id_of i) xs ≡ some x
    → find (has_key id_of j) xs ≡ some y
    → (i == j) ≡ false
    → is_tribe x.server_id x.name y ≡ false
different_rows [] i j x y u ex ey d = ground arith
different_rows (z ∷ zs) i j x y u ex ey d =
    let (u0, u1) =
      and_true (not (is_some (find (is_tribe z.server_id z.name) zs))) (names_are_unique zs) u in
    let alone : find (is_tribe z.server_id z.name) zs ≡ none = ground arith in
    elim (Bool-cases (z.id == i)) [
      | inl hi ↦
          let is_x : z ≡ x = let e : some z ≡ some x = rw hi at ex in cc in
          let miss : (z.id == j) ≡ false = ground (arith, hi, d) in
          let ey' : find (has_key id_of j) zs ≡ some y = rw miss at ey in
          rw (← is_x) (find_other (is_tribe z.server_id z.name) (has_key id_of j) zs y alone ey')
      | inr hi ↦
          let ex' : find (has_key id_of i) zs ≡ some x = rw hi at ex in
          elim (Bool-cases (z.id == j)) [
            | inl hj ↦
                let is_y : z ≡ y = let e : some z ≡ some y = rw hj at ey in cc in
                let apart =
                  find_other (is_tribe z.server_id z.name) (has_key id_of i) zs x alone ex' in
                elim (Bool-cases (is_tribe x.server_id x.name y)) [
                  | inr no_clash ↦ no_clash
                  | inl clash ↦
                      let back : is_tribe z.server_id z.name x ≡ true =
                        rw is_y (is_tribe-swap x y clash) in
                      absurd (ground (arith, apart, back))
                ]
            | inr hj ↦
                let ey' : find (has_key id_of j) zs ≡ some y = rw hj at ey in
                different_rows zs i j x y u1 ex' ey' d
          ]
    ]

pub one_or_none-find :
    (p : Tribe → Bool) (xs : List Tribe) (r : Tribe) → one_or_none p xs ≡ one r → find p xs ≡ some r
one_or_none-find p [] r h = absurd cc
one_or_none-find p (x ∷ xs) r h = elim (Bool-cases (p x)) [
  | inl hit ↦ elim (Option-cases (find p xs)) [
    | inl alone ↦ let h' : one x ≡ one r = rw (hit, alone) at h in rw hit (ap some cc)
    | inr (y, more) ↦ let h' : several ≡ one r = rw (hit, more) at h in absurd cc
  ]
  | inr miss ↦
      let h' : one_or_none p xs ≡ one r = rw miss at h in rw miss (one_or_none-find p xs r h')
]

-- The row of one tribe is given the name of another one of the server.
pub renamed_clashes :
    (xs : List Tribe) (r other : Tribe) (server_id : ℕ) (name : String)
    → HasUniqueKeys id_of xs
    → find (has_key id_of r.id) xs ≡ some r
    → r.server_id ≡ server_id
    → str_eq r.name name ≡ false
    → find (is_tribe server_id name) xs ≡ some other
    → names_are_unique (update (has_key id_of r.id) (rename name) xs) ≡ false
renamed_clashes xs r other server_id name u own place differs found =
    let after = update (has_key id_of r.id) (rename name) xs in
    let own' : find (has_key id_of r.id) after ≡ some (rename name r) =
      rw
        (
          find-update (has_key id_of r.id) (has_key id_of r.id) (rename name) xs (λ x. refl),
          own,
          ==_refl,
        )
        refl in
    let named = find_sound (is_tribe server_id name) xs other found in
    let theirs = find_by_key id_of (is_tribe server_id name) xs other u found in
    elim (Bool-cases (other.id == r.id)) [
      | inl same ↦
          let e : other.id ≡ r.id = (==_iff other.id r.id).0 same in
          let theirs' : find (has_key id_of r.id) xs ≡ some other = rw (← e) theirs in
          let is_r : other ≡ r = cc in
          let (a, b) = and_true (other.server_id == server_id) (str_eq other.name name) named in
          let b' : str_eq r.name name ≡ true = rw (← is_r) b in absurd (ground (arith, b', differs))
      | inr apart ↦
          let theirs' : find (has_key id_of other.id) after ≡ some other =
            rw
              (
                find-update (has_key id_of other.id) (has_key id_of r.id) (rename name) xs
                    (λ x. refl),
                theirs,
                apart,
              )
              refl in
          elim (Bool-cases (names_are_unique after)) [
            | inr clash ↦ clash
            | inl fine ↦
                let no_clash =
                  different_rows after r.id other.id (rename name r) other fine own' theirs'
                    (ground (arith, apart)) in
                let clash : is_tribe r.server_id name other ≡ true = rw place named in
                absurd (ground (arith, clash, no_clash))
          ]
    ]
