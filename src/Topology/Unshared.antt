-- ===== src/Topology/Unshared.antt =====
-- `get_or_create_tribe` and the numbers of tribes.
use ark_esp_backend.Prelude.{
  ℕ, String, ◌≡◌, ◌≢◌, refl, ◌||◌, Option, none, some, ◌==◌, str_eq, is_some, inl, inr, Bool-cases,
  Option-cases, and_true, ==_iff, arith, Result, ok, err,
}
use ark_esp_backend.Prelude.Int.{ℤ}
use ark_esp_backend.Prelude.Table.{find, find_sound}
use ark_esp_backend.Prelude.Unique.{HasUniqueKeys-update, find_by_key}
use ark_esp_backend.Prelude.Apart.{IsApart-update}
use ark_esp_backend.Models.{Tribe}
use ark_esp_backend.Topology.Session.{SessionError, multiple_results, Tx, is_tribe}
use ark_esp_backend.Topology.Tribes.{
  Found, nobody, one, several, one_or_none, is_numbered, known_number, rename, give_number,
  new_tribe, insert_tribe, named, inserted, look_up_name, numbered, by_number, tribe_named,
  get_or_create_tribe,
}
use ark_esp_backend.Topology.Numbers.{
  id_of, has_id, shares, same_number, HasOwnNumbers, one_or_none-several, none_found, find_never,
  numbers-given,
}

shares-rename :
    (server_id : ℕ) (o : Option ℤ) (y : Tribe) (name : String)
    → shares server_id o (rename name y) ≡ shares server_id o y
shares-rename server_id none y name = refl
shares-rename server_id (some n) y name = refl

module _ {W : Type 0} where
  abbrev pub HasOwnNumbersIn : Tx W → Type 0
  HasOwnNumbersIn t = HasOwnNumbers t.db.tribes × HasOwnNumbers t.saved.tribes

  -- what a call leaves: the numbers apart, and no MultipleResultsFound
  abbrev pub Keeps : Result SessionError (Option Tribe) × Tx W → Type 0
  Keeps (r, t) = HasOwnNumbersIn t × (r ≢ err multiple_results)

  -- Nobody has the number that a row may be given.
  abbrev IsFree : ℕ → Option ℤ → Tx W → Type 0
  IsFree server_id none t = Unit
  IsFree server_id (some n) t = find (is_numbered server_id n) t.db.tribes ≡ none

  module _ (id server_id : ℕ) (name : String) (t : Tx W) (h : HasOwnNumbersIn t) where
    pure-Keeps : (o : Option Tribe) → Keeps (ok o, t)
    pure-Keeps o = (h, λ e. cc)

    named-Keeps :
        (number : Option ℤ) (r : Tribe)
        → find (is_tribe server_id name) t.db.tribes ≡ some r
        → IsFree server_id number t
        → Keeps (named id server_id name number r t)
    named-Keeps none r found free = pure-Keeps (some r)
    named-Keeps (some n) r found free = elim (Bool-cases (is_some r.ark_tribe_id)) [
      | inl known ↦ rw known (pure-Keeps (some r))
      | inr unknown ↦ rw unknown (
        (
          record {
            ids =
                HasUniqueKeys-update id_of (has_id r.id) (give_number (some n)) t.db.tribes
                  (λ x. refl) h.0.ids;
            numbers =
                numbers-given server_id n r t.db.tribes h.0.ids h.0.numbers
                  (find_by_key id_of (is_tribe server_id name) t.db.tribes r h.0.ids found)
                  ((==_iff r.server_id server_id).0
                    (and_true (r.server_id == server_id) (str_eq r.name name)
                      (find_sound (is_tribe server_id name) t.db.tribes r found)).0)
                  free;
          },
          h.1,
        ),
        λ e. cc,
      )
    ]

    new_apart :
        (number : Option ℤ)
        → IsFree server_id number t
        → find (same_number (new_tribe id server_id name number)) t.db.tribes ≡ none
    new_apart none free =
        find_never (same_number (new_tribe id server_id name none)) t.db.tribes (λ x. refl)
    new_apart (some n) free = free

    inserted-Keeps :
        (number : Option ℤ)
        → IsFree server_id number t
        → Keeps (inserted id server_id name number t)
    unfolding insert_tribe
    inserted-Keeps number free =
        elim (Bool-cases (
          is_some (find (has_id id) t.db.tribes)
          || is_some (find (is_tribe server_id name) t.db.tribes))) [
            | inr fresh ↦
                let no_id : find (has_id id) t.db.tribes ≡ none = ground arith in
                rw fresh (
                  (
                    record {
                      ids = (no_id, h.0.ids);
                      numbers = (new_apart number free, h.0.numbers);
                    },
                    h.1,
                  ),
                  λ e. cc,
                )
            | inl taken ↦ elim (Option-cases (find (is_tribe server_id name) t.saved.tribes)) [
              | inl absent ↦ rw (taken, absent) ((h.1, h.1), λ e. cc)
              | inr (r, found) ↦ rw (taken, found) ((h.1, h.1), λ e. cc)
            ]
          ]

    look_up_name-Keeps :
        (number : Option ℤ)
        → IsFree server_id number t
        → Keeps (look_up_name id server_id name number t)
    look_up_name-Keeps number free =
        elim (Option-cases (find (is_tribe server_id name) t.db.tribes)) [
          | inl absent ↦ rw absent (inserted-Keeps number free)
          | inr (r, found) ↦ rw found (named-Keeps number r found free)
        ]

    numbered-Keeps :
        (n : ℤ) (found : Found)
        → one_or_none (is_numbered server_id n) t.db.tribes ≡ found
        → Keeps (numbered id server_id name n found t)
    numbered-Keeps n several e = absurd (one_or_none-several server_id n t.db.tribes h.0.numbers e)
    numbered-Keeps n nobody e =
        look_up_name-Keeps (some n) (none_found (is_numbered server_id n) t.db.tribes e)
    numbered-Keeps n (one r) e = elim (Bool-cases (str_eq r.name name)) [
      | inl same ↦ rw same (pure-Keeps (some r))
      | inr other ↦ rw other (
        (
          record {
            ids =
                HasUniqueKeys-update id_of (has_id r.id) (rename name) t.db.tribes (λ x. refl)
                  h.0.ids;
            numbers =
                IsApart-update same_number (has_id r.id) (rename name)
                  (λ x y. shares-rename x.server_id x.ark_tribe_id y name) (λ x y. refl) t.db.tribes
                  h.0.numbers;
          },
          h.1,
        ),
        λ e. cc,
      )
    ]

    by_number-Keeps : (number : Option ℤ) → Keeps (by_number id server_id name number t)
    by_number-Keeps none = look_up_name-Keeps none tt
    by_number-Keeps (some n) =
        numbered-Keeps n (one_or_none (is_numbered server_id n) t.db.tribes) refl

  module _ (id server_id : ℕ) (t : Tx W) (h : HasOwnNumbersIn t) where
    tribe_named-Keeps :
        (number : Option ℤ) (tribe_name : Option String)
        → Keeps (tribe_named id server_id number tribe_name t)
    tribe_named-Keeps number none = pure-Keeps id server_id "" t h none
    tribe_named-Keeps number (some name) = elim (Bool-cases (str_eq name "")) [
      | inl empty ↦ rw empty (pure-Keeps id server_id name t h none)
      | inr filled ↦ rw filled (by_number-Keeps id server_id name t h number)
    ]

    -- Where ids are unique and no two tribes of a server have the same number, in what is committed
    -- and in what is not, `get_or_create_tribe` leaves it so on every path, and it never raises
    -- MultipleResultsFound.
    pub get_or_create_tribe-Keeps :
        (tribe_name : Option String) (ark_tribe_id : Option ℤ)
        → Keeps (get_or_create_tribe id server_id tribe_name ark_tribe_id t)
    unfolding get_or_create_tribe
    get_or_create_tribe-Keeps tribe_name ark_tribe_id =
        tribe_named-Keeps (known_number ark_tribe_id) tribe_name
