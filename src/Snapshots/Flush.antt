-- ===== src/Snapshots/Flush.antt =====
-- services/structure_flush.py on repositories/structure_repo.py. A session commits all that it writes
-- or nothing, so the table is the state, and `none` is an exception.
use ark_esp_backend.Prelude.{
  ℕ, suc, ◌-◌, ◌*◌, String, Bool, ◌&&◌, Option, none, some, List, [], ◌∷◌, ltb, str_eq,
  if◌then◌else◌,
}
use ark_esp_backend.Prelude.Int.{ℤ}
use ark_esp_backend.Prelude.Double.{Double}
use ark_esp_backend.Prelude.Table.{select, update}
use ark_esp_backend.Prelude.Upsert.{upsert}
use ark_esp_backend.Pagination.{Codec}
use ark_esp_backend.Stream.Consumer.{StreamFields}
use ark_esp_backend.Topology.Text.{parse_int}
use ark_esp_backend.Sightings.Fields.{get, bind}
use ark_esp_backend.Snapshots.Hashes.{Hash, hgetall, hset}
use ark_esp_backend.Snapshots.Keys.{parse_key, map_id_of}

-- models/structure_legacy.py
pub record Structure (W : Type 0) : Type 0 where
  pub id : ℕ
  pub tribe_id : String
  pub map_id : String
  pub struct_key : String
  pub class_ : String
  pub kind_hint : Option String
  pub x : Option W
  pub y : Option W
  pub z : Option W
  pub item_count : Option ℤ
  pub has_item_count : Bool
  pub ammo : Option W
  pub range : Option W
  pub enabled : Option Bool
  pub powered : Option Bool
  pub first_seen_at : ℕ
  pub last_seen_at : ℕ
  pub status : String

abbrev pub text_of : String → StreamFields → String
text_of name fields = or_empty (get name fields)
  where
    or_empty : Option String → String
    or_empty none = ""
    or_empty (some v) = v

-- `_to_float`, `_to_int` and the dates: nothing for an empty text
abbrev to_value : {A : Type 0} → (String → Option A) → String → Option (Option A)
to_value read v =
    let value = bind (read v) λ a. some (some a) in if str_eq v "" then some none else value

abbrev to_bool : String → Option Bool
to_bool v = if str_eq v "" then none else some (str_eq v "1")

abbrev filled : String → Option String
filled v = if str_eq v "" then none else some v

abbrev or_now : ℕ → Option ℕ → ℕ
or_now now none = now
or_now now (some t) = t

-- the reset of `dirty` after the write
abbrev pub clear_dirty : String → List Hash → List Hash
clear_dirty key hashes = hset key (("dirty", "0") ∷ []) hashes

module _ {W : Type 0} where
  abbrev pub is_structure : String → String → String → Structure W → Bool
  is_structure tribe_id map_id struct_key r =
      str_eq r.tribe_id tribe_id && (str_eq r.map_id map_id && str_eq r.struct_key struct_key)

  -- the assignments of `upsert`: all columns but those of the new row
  unfoldable pub assign : Structure W → Structure W → Structure W
  assign new r = record new {
    id = r.id;
    tribe_id = r.tribe_id;
    map_id = r.map_id;
    struct_key = r.struct_key;
    first_seen_at = r.first_seen_at;
  }

  unfoldable pub upsert_row : Structure W → List (Structure W) → Option (List (Structure W))
  upsert_row new rows =
      upsert (λ r. r.id) (is_structure new.tribe_id new.map_id new.struct_key) (assign new) new rows

  module _ ⦃d : Double W⦄ (codec : Codec) where
    -- what a hash says of a structure; `none` is a ValueError
    unfoldable pub row_of :
        (id now : ℕ) → (tribe_id struct_key : String) → StreamFields → Option (Structure W)
    row_of id now tribe_id struct_key fields =
        bind (to_value codec.fromisoformat (text_of "first_seen_at" fields)) λ first_seen_at.
          bind (to_value codec.fromisoformat (text_of "last_seen_at" fields)) λ last_seen_at.
            bind (to_value d.parse (text_of "x" fields)) λ x.
              bind (to_value d.parse (text_of "y" fields)) λ y.
                bind (to_value d.parse (text_of "z" fields)) λ z.
                  bind (to_value parse_int (text_of "item_count" fields)) λ item_count.
                    bind (to_value d.parse (text_of "ammo" fields)) λ ammo.
                      bind (to_value d.parse (text_of "range" fields)) λ range. some (record {
                        id = id;
                        tribe_id = tribe_id;
                        map_id = map_id_of struct_key;
                        struct_key = struct_key;
                        class_ = text_of "class" fields;
                        kind_hint = filled (text_of "kind_hint" fields);
                        x = x;
                        y = y;
                        z = z;
                        item_count = item_count;
                        has_item_count = str_eq (text_of "has_item_count" fields) "1";
                        ammo = ammo;
                        range = range;
                        enabled = to_bool (text_of "enabled" fields);
                        powered = to_bool (text_of "powered" fields);
                        first_seen_at = or_now now first_seen_at;
                        last_seen_at = or_now now last_seen_at;
                        status = "active";
                      })

    unfoldable pub upsert_from_cache :
        (id now : ℕ)
        → (tribe_id struct_key : String) → StreamFields
        → List (Structure W)
        → Option (List (Structure W))
    upsert_from_cache id now tribe_id struct_key fields rows =
        bind (row_of id now tribe_id struct_key fields) λ row. upsert_row row rows

    -- One key of the scan up to the write to Postgres: the rows, if they were written.
    abbrev write_dirty :
        (id now : ℕ)
        → Option (String × String)
        → StreamFields
        → List (Structure W)
        → Option (List (Structure W))
    write_dirty id now none fields rows = none
    write_dirty id now (some (tribe_id, struct_key)) fields rows =
        let written = upsert_from_cache id now tribe_id struct_key fields rows in
        if str_eq (text_of "dirty" fields) "1" then written else none

    unfoldable pub write_key :
        (id now : ℕ) → String → List Hash → List (Structure W) → Option (List (Structure W))
    write_key id now key hashes rows = write_dirty id now (parse_key key) (hgetall key hashes) rows

    abbrev finished :
        String
        → List Hash
        → List (Structure W)
        → ℕ
        → Option (List (Structure W))
        → List Hash × (List (Structure W) × ℕ)
    finished key hashes rows flushed none = (hashes, (rows, flushed))
    finished key hashes rows flushed (some rows') = (clear_dirty key hashes, (rows', suc flushed))

    -- `flush_dirty_structures`, with the keys that the scan gives, an id drawn for each
    unfoldable pub flush_dirty_structures :
        (List (Structure W) → ℕ)
        → (now : ℕ) → List String
        → List Hash
        → List (Structure W)
        → ℕ
        → List Hash × (List (Structure W) × ℕ)
    flush_dirty_structures draws now [] hashes rows flushed = (hashes, (rows, flushed))
    flush_dirty_structures draws now (key ∷ keys) hashes rows flushed =
        let (hashes', (rows', flushed')) =
          finished key hashes rows flushed (write_key (draws rows) now key hashes rows) in
        flush_dirty_structures draws now keys hashes' rows' flushed'

  abbrev is_stale : ℕ → Structure W → Bool
  is_stale cutoff r = str_eq r.status "active" && ltb r.last_seen_at cutoff

  abbrev pub row_count : List (Structure W) → ℕ
  row_count [] = 0
  row_count (r ∷ rs) = suc (row_count rs)

  -- `mark_stale`: the rows that are marked, and how many they are
  unfoldable pub mark_stale : ℕ → List (Structure W) → List (Structure W) × ℕ
  mark_stale cutoff rows = (
    update (is_stale cutoff) (λ r. record r { status = "possibly_demolished" }) rows,
    row_count (select (is_stale cutoff) rows),
  )

  -- `STALE_AFTER_HOURS`
  unfoldable pub mark_stale_structures : ℕ → List (Structure W) → List (Structure W) × ℕ
  mark_stale_structures now rows = mark_stale (now - 24 * 3600 * 1000000) rows
