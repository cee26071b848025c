-- ===== src/Sightings/Structures/Steps.antt =====
-- One report on the table of structures, and on the map that it stands for.
use ark_esp_backend.Prelude.{
  ℕ, String, ◌≡◌, refl, ap, true, Option, none, some, List, inl, inr, Bool-cases, ==_refl,
}
use ark_esp_backend.Prelude.Table.{find, find_sound}
use ark_esp_backend.Prelude.Unique.{has_key, HasUniqueKeys, HasUniqueKeys-delete}
use ark_esp_backend.Prelude.Upsert.{upsert, value_or, IsChange, IsUpserted, upsert-IsUpserted}
use ark_esp_backend.Prelude.Apart.{
  IsApart, IsApart-delete, find-delete_found, find-delete_row, upsert-IsApart,
}
use ark_esp_backend.Models.{ArkStructure, World}
use ark_esp_backend.Topology.Session.{is_reporter, names_are_unique, commit, in_session}
use ark_esp_backend.Sightings.Fields.{Draw, newer}
use ark_esp_backend.Sightings.Keys.{key_eq, key_refl, key_apart}
use ark_esp_backend.Sightings.Structures.Rows.{
  Observation, is_structure, is_referable, new_structure, observe, upsert_structure, delete_by_hash,
  remove_row,
}
use ark_esp_backend.Sightings.Structures.Store.{
  Report, seen, gone, merge, is_key, note, forget, map_of, same_structure, apply,
}

newer-none : {A : Type 0} (o : Option A) → newer o none ≡ o
newer-none none = refl
newer-none (some a) = refl

module _ {W : Type 0} (id server_id : ℕ) (object_hash : String) (o : Observation W) where
  -- the row that an upsert leaves, as the map has it
  merged :
      (found : Option (ArkStructure W))
      → forget (some (observe o (value_or (new_structure id server_id object_hash o) found)))
        ≡ some (merge o (forget found))
  unfolding observe
  merged none =
      rw
        (
          newer-none o.tribe_id,
          newer-none o.x,
          newer-none o.y,
          newer-none o.z,
          newer-none o.health,
          newer-none o.reported_by_account_id,
        )
        refl
  merged (some r) = refl

  observe-IsChange :
      IsChange
        (λ r. r.id)
        (is_structure server_id object_hash)
        (observe o)
        (new_structure id server_id object_hash o)
  unfolding observe
  observe-IsChange = record {
    keeps_id = λ x. refl;
    keeps = λ x. refl;
    meets = key_refl server_id object_hash;
  }

-- what one report does to the database, and to the map
pub record IsApplied {W : Type 0} (draws : World W → Draw) (r : Report W) (w w' : World W)
    : Type 0 where
  pub returned : apply draws r w ≡ (true, w')
  pub ids : HasUniqueKeys (λ x. x.id) w'.structures
  pub hashes : IsApart same_structure w'.structures
  pub tribes : w'.tribes ≡ w.tribes
  pub accounts : w'.accounts ≡ w.accounts
  pub servers : w'.servers ≡ w.servers
  pub classes : w'.structure_classes ≡ w.structure_classes
  pub agrees : (m : ℕ) (u : String) → map_of w' m u ≡ note r (map_of w) m u

is_reporter-accounts :
    {W : Type 0} (id : Option ℕ) (w w' : World W)
    → w'.accounts ≡ w.accounts
    → is_reporter id w' ≡ is_reporter id w
is_reporter-accounts none w w' e = refl
is_reporter-accounts (some n) w w' e = rw e refl

-- The foreign keys are judged by four tables.
pub is_referable-tables :
    {W : Type 0} (server_id : ℕ) (o : Observation W) (w w' : World W)
    → w'.accounts ≡ w.accounts
    → w'.servers ≡ w.servers
    → w'.structure_classes ≡ w.structure_classes
    → w'.tribes ≡ w.tribes
    → is_referable server_id o w' ≡ is_referable server_id o w
is_referable-tables server_id o w w' accounts servers classes tribes =
    rw (is_reporter-accounts o.reported_by_account_id w w' accounts, servers, classes, tribes) refl

module _ {W : Type 0} (draws : World W → Draw) (w : World W)
    (ids : HasUniqueKeys (λ (r : ArkStructure W). r.id) w.structures)
    (hashes : IsApart same_structure w.structures) (names : names_are_unique w.tribes ≡ true)
    (server_id : ℕ) (object_hash : String) where
  module _ (o : Observation W) (known : is_referable server_id o w ≡ true)
      (rows : List (ArkStructure W))
      (e : upsert
          (λ r. r.id)
          (is_structure server_id object_hash)
          (observe o)
          (new_structure (draws w).row server_id object_hash o)
          w.structures
        ≡ some rows) where
    written :
        IsUpserted
          (λ r. r.id)
          (is_structure server_id object_hash)
          (observe o)
          (new_structure (draws w).row server_id object_hash o)
          w.structures
          rows
    written =
        upsert-IsUpserted (λ r. r.id) (is_structure server_id object_hash) (observe o)
          (new_structure (draws w).row server_id object_hash o) w.structures
          (observe-IsChange (draws w).row server_id object_hash o) rows ids e

    seen_returns :
        apply draws (seen server_id object_hash o) w ≡ (true, record w { structures = rows })
    unfolding apply upsert_structure in_session commit
    seen_returns =
        rw
          (
            e,
            is_referable-tables server_id o w (record w { structures = rows }) refl refl refl refl,
            known,
            names,
            written.same,
          )
          refl

    seen_agrees :
        (m : ℕ) (u : String)
        → forget (find (is_structure m u) rows) ≡ note (seen server_id object_hash o) (map_of w) m u
    unfolding observe
    seen_agrees m u = elim (Bool-cases (is_key server_id object_hash m u)) [
      | inl own ↦
          let (a, b) = key_eq server_id m object_hash u own in
          rw (own, ← a, ← b, written.same)
            (merged (draws w).row server_id object_hash o
              (find (is_structure server_id object_hash) w.structures))
      | inr other ↦
          rw
            (
              other,
              written.other (is_structure m u) (λ x. refl)
                  λ x hit. key_apart x.server_id server_id m x.object_hash object_hash u hit other,
            )
            refl
    ]

    pub seen-IsApplied :
        IsApplied draws (seen server_id object_hash o) w (record w { structures = rows })
    unfolding observe
    seen-IsApplied = record {
      returned = seen_returns;
      ids = written.unique;
      hashes =
          upsert-IsApart (λ r. r.id) same_structure (is_structure server_id object_hash) (observe o)
            (new_structure (draws w).row server_id object_hash o) w.structures rows (λ x y. refl)
            (λ x y. refl) refl hashes e;
      tribes = refl;
      accounts = refl;
      servers = refl;
      classes = refl;
      agrees = seen_agrees;
    }

  pub gone_nothing :
      find (is_structure server_id object_hash) w.structures ≡ none
      → IsApplied draws (gone server_id object_hash) w w
  unfolding apply delete_by_hash in_session
  gone_nothing absent = record {
    returned = rw absent refl;
    ids = ids;
    hashes = hashes;
    tribes = refl;
    accounts = refl;
    servers = refl;
    classes = refl;
    agrees = λ m u. elim (Bool-cases (is_key server_id object_hash m u)) [
      | inl own ↦
          let (a, b) = key_eq server_id m object_hash u own in rw (own, ← a, ← b, absent) refl
      | inr other ↦ rw other refl
    ];
  }

  both_agree :
      (x y : ArkStructure W)
      → is_structure server_id object_hash x ≡ true
      → is_structure server_id object_hash y ≡ true
      → same_structure x y ≡ true
  both_agree x y h h' =
      let (a, b) = key_eq x.server_id server_id x.object_hash object_hash h in rw (a, b) h'

  pub gone_found :
      (r : ArkStructure W)
      → find (is_structure server_id object_hash) w.structures ≡ some r
      → IsApplied draws (gone server_id object_hash) w (remove_row r w)
  unfolding apply delete_by_hash in_session commit
  gone_found r found = record {
    returned = rw (found, names) refl;
    ids = HasUniqueKeys-delete (λ x. x.id) (has_key (λ x. x.id) r.id) w.structures ids;
    hashes = IsApart-delete same_structure (has_key (λ x. x.id) r.id) w.structures hashes;
    tribes = refl;
    accounts = refl;
    servers = refl;
    classes = refl;
    agrees = λ m u. elim (Bool-cases (is_key server_id object_hash m u)) [
      | inl own ↦
          let (a, b) = key_eq server_id m object_hash u own in
          rw (own, ← a, ← b)
            (ap forget (
              find-delete_found same_structure (is_structure server_id object_hash) both_agree
                (has_key (λ x. x.id) r.id) w.structures r hashes found (==_refl r.id)))
      | inr other ↦ rw other (
          ap forget (
            find-delete_row (λ x. x.id) (is_structure server_id object_hash) (is_structure m u)
              w.structures r ids found
              (key_apart r.server_id server_id m r.object_hash object_hash u
                (find_sound (is_structure server_id object_hash) w.structures r found) other)))
    ];
  }
