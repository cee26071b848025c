-- ===== src/Topology/Tribes.antt =====
-- `get_or_create_tribe`: a tribe is looked up by the number that the game gives it, then by its name.
use ark_esp_backend.Prelude.{
  ℕ, String, Bool, not, ◌&&◌, ◌||◌, Option, none, some, List, [], ◌∷◌, ◌==◌, str_eq, if◌then◌else◌,
  is_some, or_raise, raise, pure, ◌>>=◌, ◌>>◌,
}
use ark_esp_backend.Prelude.Int.{ℤ, equals_int, is_positive}
use ark_esp_backend.Prelude.Table.{find, update}
use ark_esp_backend.Models.{Tribe, World}
use ark_esp_backend.Topology.Session.{
  multiple_results, integrity, Work, is_tribe, query, write, rollback, flush_or,
}

-- `ark_tribe_id is not None and ark_tribe_id > 0`: the number, if it is one
abbrev pub known_number : Option ℤ → Option ℤ
known_number none = none
known_number (some n) = if is_positive n then some n else none

abbrev pub is_numbered : ℕ → ℤ → Tribe → Bool
is_numbered server_id n r = r.server_id == server_id && equals_int r.ark_tribe_id n

-- `scalar_one_or_none`, where no index makes the row unique
pub data Found : Type 0 where
  nobody : Found
  one : Tribe → Found
  several : Found

abbrev another : Tribe → Option Tribe → Found
another r none = one r
another r (some x) = several

abbrev pub one_or_none : (Tribe → Bool) → List Tribe → Found
one_or_none p [] = nobody
one_or_none p (r ∷ rs) = if p r then another r (find p rs) else one_or_none p rs

-- no UPDATE is sent for a name that stays
abbrev pub rename : String → Tribe → Tribe
rename name r = record r { name = name }

abbrev pub give_number : Option ℤ → Tribe → Tribe
give_number n r = record r { ark_tribe_id = n }

abbrev pub set_tribe : {W : Type 0} → ℕ → (Tribe → Tribe) → World W → World W
set_tribe id f w = record w { tribes = update (λ x. x.id == id) f w.tribes }

abbrev pub new_tribe : (id server_id : ℕ) → String → Option ℤ → Tribe
new_tribe id server_id name number = record {
  id = id;
  server_id = server_id;
  ark_tribe_id = number;
  name = name;
}

module _ {W : Type 0} where
  unfoldable pub insert_tribe : Tribe → World W → Option (World W)
  insert_tribe r w =
      if is_some (find (λ x. x.id == r.id) w.tribes)
        || is_some (find (is_tribe r.server_id r.name) w.tribes)
      then none
      else some (record w { tribes = r ∷ w.tribes })

  module _ (id server_id : ℕ) (name : String) where
    -- the row that has the name: it is given the number if it has none
    abbrev pub named : Option ℤ → Tribe → Work W (Option Tribe)
    named number r =
        if is_some number && not (is_some r.ark_tribe_id)
        then (write (set_tribe r.id (give_number number)) >> pure (some (give_number number r)))
        else pure (some r)

    abbrev pub inserted : Option ℤ → Work W (Option Tribe)
    inserted number =
        let tribe = new_tribe id server_id name number in
        flush_or (insert_tribe tribe) (some tribe) do
          rollback
          found ← query (λ w. find (is_tribe server_id name) w.tribes)
          tribe ← or_raise found integrity
          pure (some tribe)

    abbrev pub by_name : Option ℤ → Option Tribe → Work W (Option Tribe)
    by_name number none = inserted number
    by_name number (some r) = named number r

    abbrev pub look_up_name : Option ℤ → Work W (Option Tribe)
    look_up_name number = do
      found ← query (λ w. find (is_tribe server_id name) w.tribes)
      by_name number found

    -- the row that has the number: it takes the name
    abbrev pub numbered : ℤ → Found → Work W (Option Tribe)
    numbered n several = raise multiple_results
    numbered n nobody = look_up_name (some n)
    numbered n (one r) =
        if str_eq r.name name
        then pure (some r)
        else (write (set_tribe r.id (rename name)) >> pure (some (rename name r)))

    abbrev pub by_number : Option ℤ → Work W (Option Tribe)
    by_number none = look_up_name none
    by_number (some n) = do
      found ← query (λ w. one_or_none (is_numbered server_id n) w.tribes)
      numbered n found

  abbrev pub tribe_named : (id server_id : ℕ) → Option ℤ → Option String → Work W (Option Tribe)
  tribe_named id server_id number none = pure none
  tribe_named id server_id number (some name) =
      if str_eq name "" then pure none else by_number id server_id name number

  -- No name, or an empty one: no tribe.
  unfoldable pub get_or_create_tribe :
      (id server_id : ℕ) → Option String → Option ℤ → Work W (Option Tribe)
  get_or_create_tribe id server_id tribe_name ark_tribe_id =
      tribe_named id server_id (known_number ark_tribe_id) tribe_name
