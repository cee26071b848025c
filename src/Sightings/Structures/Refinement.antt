-- ===== src/Sightings/Structures/Refinement.antt =====
-- The table of structures and the map that it stands for, over many reports.
use ark_esp_backend.Prelude.{
  ℕ, String, ◌≡◌, refl, ap, fun_ext, ◌∙◌, true, List, [], ◌∷◌, inl, inr, Option-cases, and_true,
}
use ark_esp_backend.Prelude.Table.{find}
use ark_esp_backend.Prelude.Unique.{HasUniqueKeys}
use ark_esp_backend.Prelude.Upsert.{upsert_returns}
use ark_esp_backend.Prelude.Apart.{IsApart}
use ark_esp_backend.Models.{ArkStructure, World}
use ark_esp_backend.Topology.Session.{names_are_unique}
use ark_esp_backend.Sightings.Fields.{Draw}
use ark_esp_backend.Sightings.Structures.Rows.{is_structure, new_structure, observe, remove_row}
use ark_esp_backend.Sightings.Structures.Store.{
  Report, seen, gone, Map, note, note_all, map_of, same_structure, known_to, all_known_to, IsReady,
  IsFresh, apply_all,
}
use ark_esp_backend.Sightings.Structures.Steps.{
  IsApplied, is_referable-tables, seen-IsApplied, gone_nothing, gone_found,
}

module _ {W : Type 0} (draws : World W → Draw) (fresh : IsFresh draws) where
  one-IsApplied :
      (r : Report W) (w : World W)
      → HasUniqueKeys (λ x. x.id) w.structures
      → IsApart same_structure w.structures
      → names_are_unique w.tribes ≡ true
      → known_to r w ≡ true
      → (w' : World W) × IsApplied draws r w w'
  one-IsApplied (seen server_id object_hash o) w ids hashes names known =
      let (rows, e) =
        upsert_returns (λ (r : ArkStructure W). r.id) (is_structure server_id object_hash)
          (observe o) (new_structure (draws w).row server_id object_hash o) w.structures
          (fresh w) in
      (
        record w { structures = rows },
        seen-IsApplied draws w ids hashes names server_id object_hash o known rows e,
      )
  one-IsApplied (gone server_id object_hash) w ids hashes names known =
      elim (Option-cases (find (is_structure server_id object_hash) w.structures)) [
        | inl absent ↦ (w, gone_nothing draws w ids hashes names server_id object_hash absent)
        | inr (r, found) ↦
            (remove_row r w, gone_found draws w ids hashes names server_id object_hash r found)
      ]

  module _ {q : Report W} (w w' : World W) (a : IsApplied draws q w w') where
    known_to-applied : (r : Report W) → known_to r w' ≡ known_to r w
    known_to-applied (seen m u o) =
        is_referable-tables m o w w' a.accounts a.servers a.classes a.tribes
    known_to-applied (gone m u) = refl

    all_known_to-applied : (rs : List (Report W)) → all_known_to rs w' ≡ all_known_to rs w
    all_known_to-applied [] = refl
    all_known_to-applied (r ∷ rest) = rw (known_to-applied r, all_known_to-applied rest) refl

  note_all-ext :
      (rs : List (Report W)) (a b : Map W)
      → ((m : ℕ) (u : String) → a m u ≡ b m u)
      → note_all rs a ≡ note_all rs b
  note_all-ext rs a b h = ap (note_all rs) (fun_ext λ m. fun_ext λ u. h m u)

  -- The table of structures behaves as the map that it stands for: after any sequence of upserts and
  -- deletions, each in a session of its own, what is known under every server and hash is what the
  -- map has, and every session returns. This is where ids are unique and drawn fresh, no two rows
  -- have the same server and hash, names of tribes are unique, and the servers, classes, tribes and
  -- reporters of the sightings are in the database.
  pub table_refines_map :
      (reports : List (Report W)) (w : World W)
      → IsReady reports w
      → ((apply_all draws reports w).0 ≡ true)
        × ((m : ℕ) (u : String)
            → map_of (apply_all draws reports w).1 m u ≡ note_all reports (map_of w) m u)
  table_refines_map [] w ready = (refl, λ m u. refl)
  table_refines_map (r ∷ rest) w ready =
      let (k, ks) = and_true (known_to r w) (all_known_to rest w) ready.known in
      let (w', done) = one-IsApplied r w ready.ids ready.hashes ready.names k in
      let (b, h) = table_refines_map rest w' (record {
        ids = done.ids;
        hashes = done.hashes;
        names = ap names_are_unique done.tribes ∙ ready.names;
        known = all_known_to-applied w w' done rest ∙ ks;
      }) in
      (
        rw done.returned b,
        λ m u.
            rw (done.returned, ← note_all-ext rest (map_of w') (note r (map_of w)) done.agrees)
              (h m u),
      )
