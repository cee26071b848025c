-- ===== src/Sightings/Structures/Poison.antt =====
-- A structure of a tribe that has taken the name of another.
use ark_esp_backend.Prelude.{
  ℕ, String, ◌≡◌, refl, false, some, ◌==◌, str_eq, inl, inr, Bool-cases, Option-cases, and_true,
  ==_iff, ◌>>=◌,
}
use ark_esp_backend.Prelude.Int.{ℤ}
use ark_esp_backend.Prelude.Table.{find, find_sound}
use ark_esp_backend.Prelude.Unique.{HasUniqueKeys, find_by_key}
use ark_esp_backend.Prelude.Upsert.{upsert}
use ark_esp_backend.Models.{ArkStructure, World, Tribe, Server, StructureClass}
use ark_esp_backend.Stream.Consumer.{StreamFields}
use ark_esp_backend.Topology.Session.{
  Tx, Work, is_tribe, names_are_unique, commit, closed, in_session,
}
use ark_esp_backend.Topology.Servers.{split_ip_port, is_at, get_or_create_server_by_ip}
use ark_esp_backend.Topology.Tribes.{
  known_number, is_numbered, one, one_or_none, rename, set_tribe, get_or_create_tribe,
}
use ark_esp_backend.Topology.Lookups.{has_code, get_or_create_structure_class}
use ark_esp_backend.Topology.Clash.{one_or_none-find, renamed_clashes}
use ark_esp_backend.Sightings.Fields.{Reading, Draw, reporter}
use ark_esp_backend.Sightings.Structures.Message.{StructureSighting, parse_sighting}
use ark_esp_backend.Sightings.Structures.Rows.{
  Observation, is_structure, is_referable, observe, new_structure, upsert_structure,
}
use ark_esp_backend.Sightings.Structures.Handling.{
  store_turret, ingest_structure_sighting, structure_handler,
}

module _ {W A : Type 0} (k : ArkStructure W → Work W A) (id server_id : ℕ) (object_hash : String)
    (o : Observation W) (t : Tx W) (clash : names_are_unique t.db.tribes ≡ false) where
  -- The commit is refused, if the rows get that far.
  pub upsert_structure_refused :
      closed ((upsert_structure id server_id object_hash o >>= k) t) ≡ (false, t.saved)
  unfolding upsert_structure commit
  upsert_structure_refused =
      elim (Option-cases (
        upsert (λ r. r.id) (is_structure server_id object_hash) (observe o)
          (new_structure id server_id object_hash o) t.db.structures)) [
            | inl refused ↦ rw refused refl
            | inr (rows, e) ↦
                elim (Bool-cases (is_referable server_id o (record t.db { structures = rows }))) [
                  | inr unknown ↦ rw (e, unknown) refl
                  | inl known ↦ rw (e, known, clash) refl
                ]
          ]

-- What makes a message fail: its tribe has the number of one row and the name of another.
pub record HasClash {W : Type 0} (rd : Reading W) (s : StructureSighting W) (w : World W)
    : Type 0 where
  pub code : String
  pub structure_class : StructureClass
  pub present : s.removed ≡ false
  pub has_class : s.class_code ≡ some code
  pub class_known : find (has_code code) w.structure_classes ≡ some structure_class
  pub place : String × ℤ
  pub ip : String
  pub server : Server
  pub split : split_ip_port s.server_ip ≡ some place
  pub read : rd.inet place.0 ≡ some ip
  pub server_known : find (is_at (ip, place.1)) w.servers ≡ some server
  pub name : String
  pub number : ℤ
  pub holder : Tribe
  pub other : Tribe
  pub has_name : s.tribe_name ≡ some name
  pub filled : str_eq name "" ≡ false
  pub has_number : known_number s.team ≡ some number
  pub held : one_or_none (is_numbered server.id number) w.tribes ≡ one holder
  pub renamed : str_eq holder.name name ≡ false
  pub by_name : find (is_tribe server.id name) w.tribes ≡ some other

module _ {W : Type 0} (rd : Reading W) (draws : World W → Draw) (s : StructureSighting W)
    (w : World W) (u : HasUniqueKeys (λ (r : Tribe). r.id) w.tribes) (h : HasClash rd s w) where
  tribes_clash : names_are_unique (set_tribe h.holder.id (rename h.name) w).tribes ≡ false
  tribes_clash =
      let found = one_or_none-find (is_numbered h.server.id h.number) w.tribes h.holder h.held in
      let (a, b) =
        and_true (h.holder.server_id == h.server.id) _
          (find_sound (is_numbered h.server.id h.number) w.tribes h.holder found) in
      renamed_clashes w.tribes h.holder h.other h.server.id h.name u
        (find_by_key (λ r. r.id) (is_numbered h.server.id h.number) w.tribes h.holder u found)
        ((==_iff h.holder.server_id h.server.id).0 a) h.renamed h.by_name

  ingest_refused : in_session (ingest_structure_sighting rd (draws w) s) w ≡ (false, w)
  unfolding in_session ingest_structure_sighting get_or_create_server_by_ip
      get_or_create_structure_class get_or_create_tribe
  ingest_refused =
      rw
        (
          h.split, h.read, h.server_known, h.present, h.has_class, h.class_known, h.has_name,
          h.filled, h.has_number, h.held, h.renamed,
        )
        (elim (Option-cases (reporter rd s.reported_by_account_id)) [
          | inl malformed ↦ rw malformed refl
          | inr (account, e) ↦ rw e (
              upsert_structure_refused (store_turret rd (draws w) s h.server.id) (draws w).row
                h.server.id s.object_hash _
                (record { db = set_tribe h.holder.id (rename h.name) w; saved = w }) tribes_clash)
        ])

-- Where a structure is reported of a tribe that has, on this server, the number of one row and the
-- name of another, on a known server and with a known class, the handler raises and leaves the
-- database as it was, so the same happens to the message whenever it is delivered again.
pub renamed_tribe_blocks_message :
    {W : Type 0} (rd : Reading W) (draws : World W → Draw) (fields : StreamFields)
    (s : StructureSighting W) (w : World W)
    → parse_sighting rd fields ≡ some s
    → HasUniqueKeys (λ (r : Tribe). r.id) w.tribes
    → HasClash rd s w
    → structure_handler rd draws fields w ≡ (false, w)
unfolding structure_handler
renamed_tribe_blocks_message rd draws fields s w parsed u h =
    rw parsed (ingest_refused rd draws s w u h)
