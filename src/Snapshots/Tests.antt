-- ===== src/Snapshots/Tests.antt =====
-- A structure that is cached, flushed and cached again.
use ark_esp_backend.Prelude.{ℕ, String, ◌≡◌, refl, false, none, some, List, [], ◌∷◌}
use ark_esp_backend.Prelude.Int.{ℤ}
use ark_esp_backend.Prelude.Upsert.{upsert}
use ark_esp_backend.Pagination.{Codec}
use ark_esp_backend.Topology.Text.{parse_int}
use ark_esp_backend.Sightings.Tests.Worlds.{doubles}
use ark_esp_backend.Snapshots.Hashes.{Hash, hgetall}
use ark_esp_backend.Snapshots.Keys.{structure_hash_key, build_struct_key, parse_key, map_id_of}
use ark_esp_backend.Snapshots.Store.{StructureItem, mapping, write_cached, upsert_cached_structure}
use ark_esp_backend.Snapshots.Flush.{
  Structure, upsert_row, row_of, upsert_from_cache, write_key, clear_dirty, flush_dirty_structures,
}
use ark_esp_backend.Snapshots.Overlap.{Holds, overlapping_snapshot_is_not_flushed}

-- Every number and date is written as "1", and every date read as 7.
abbrev codec : Codec
codec = record {
  b64encode = λ s. s;
  b64decode = λ s. some s;
  isoformat = λ t. "1";
  fromisoformat = λ s. some 7;
  show = λ t. "1";
  uuid = λ s. none;
}

abbrev show : ℤ → String
show n = "1"

abbrev item : StructureItem ℕ
item = record {
  class_ = "wall";
  kind_hint = none;
  x = 300;
  y = 300;
  z = 300;
  tribe_name = "bears";
  team = ℤ.pos 5;
  item_count = none;
  has_item_count = false;
  turret = none;
}

abbrev struct_key : String
struct_key = "wall:island:1:1:1"

key_is_read : parse_key "ark:tribe:t:structure:wall:island:1:1:1" ≡ some ("t", struct_key)
unfolding parse_key
key_is_read = refl

map_is_read : map_id_of struct_key ≡ "island"
map_is_read = refl

-- A class with a colon moves the map.
map_is_misread : map_id_of "a:b:island:1:1:1" ≡ "b"
map_is_misread = refl

abbrev cached : String → List Hash → List Hash
cached now hashes =
    write_cached (structure_hash_key "t" struct_key) now (mapping show item now) hashes

item_is_cached :
    upsert_cached_structure show "t" "island" "noon" item [] ≡ some (struct_key, cached "noon" [])
unfolding upsert_cached_structure build_struct_key
item_is_cached = refl

item_is_cached_again :
    upsert_cached_structure show "t" "island" "one" item (cached "noon" [])
    ≡ some (struct_key, cached "one" (cached "noon" []))
unfolding upsert_cached_structure build_struct_key
item_is_cached_again = refl

-- The first flush writes one row.
one_row_is_flushed :
    (flush_dirty_structures {W = ℕ} codec
      (λ rows. 1)
      50
      ("ark:tribe:t:structure:wall:island:1:1:1" ∷ "odd" ∷ [])
      (cached "noon" [])
      []
      0).1.1
    ≡ 1
unfolding flush_dirty_structures write_key parse_key upsert_from_cache row_of upsert_row
    structure_hash_key parse_int upsert
one_row_is_flushed = refl

overlapping_snapshot_is_not_flushed_example :
    let key = structure_hash_key "t" struct_key in
    let after = cached "one" (cached "noon" []) in
    Holds show item "one" (hgetall key after)
    × ((id time : ℕ) (rows : List (Structure ℕ)) (t k : String)
        → parse_key key ≡ some (t, k)
        → write_key codec id time key after rows
          ≡ upsert_from_cache codec id time t k (hgetall key after) rows)
    × Holds show item "one" (hgetall key (clear_dirty key after))
    × ((id time : ℕ) (rows : List (Structure ℕ))
        → write_key codec id time key (clear_dirty key after) rows ≡ none)
overlapping_snapshot_is_not_flushed_example =
    overlapping_snapshot_is_not_flushed show "t" "island" "one" item (cached "noon" [])
      (cached "one" (cached "noon" [])) struct_key codec item_is_cached_again
