-- ===== src/Snapshots/Overlap.antt =====
-- A snapshot that comes in while the flush writes the same structure to Postgres.
use ark_esp_backend.Prelude.{
  ℕ, String, ◌≡◌, refl, ap, ◌∙◌, Bool, false, str_eq, Option, none, some, List, if◌then◌else◌,
  is_some, Option-cases, inl, inr,
}
use ark_esp_backend.Prelude.Int.{ℤ}
use ark_esp_backend.Prelude.Double.{Double}
use ark_esp_backend.Pagination.{Codec}
use ark_esp_backend.Stream.Consumer.{StreamFields}
use ark_esp_backend.Sightings.Fields.{get}
use ark_esp_backend.Snapshots.Hashes.{
  Hash, set_field, set_fields, hgetall, hset, hsetnx, final, get-set_field, get-set_fields,
  hgetall-change_hash,
}
use ark_esp_backend.Snapshots.Keys.{structure_hash_key, build_struct_key, parse_key}
use ark_esp_backend.Snapshots.Store.{
  TurretPayload, StructureItem, mapping, write_cached, cache_ttl_seconds, store_under,
  upsert_cached_structure,
}
use ark_esp_backend.Snapshots.Flush.{Structure, clear_dirty, upsert_from_cache, write_key}

abbrev set_first : String → StreamFields → StreamFields
set_first now fields =
    if is_some (get "first_seen_at" fields) then fields else set_field "first_seen_at" now fields

hgetall-write_cached :
    (key now : String) (m : StreamFields) (hashes : List Hash)
    → hgetall key (write_cached key now m hashes)
      ≡ set_fields m (set_first now (hgetall key hashes))
hgetall-write_cached key now m hashes =
    let nx = hsetnx key "first_seen_at" now hashes in
    hgetall-change_hash key (λ h. record h { ttl_seconds = some cache_ttl_seconds }) (hset key m nx)
      (λ h. refl) (λ fs. fs) (λ h. refl)
    ∙ (hgetall-change_hash key (λ h. record h { fields = set_fields m h.fields }) nx (λ h. refl)
          (set_fields m) (λ h. refl)
        ∙ ap (set_fields m) (
            hgetall-change_hash key (λ h. record h { fields = set_first now h.fields }) hashes
              (λ h. refl) (set_first now) (λ h. refl)))

hgetall-clear_dirty :
    (key : String) (hashes : List Hash)
    → hgetall key (clear_dirty key hashes) ≡ set_field "dirty" "0" (hgetall key hashes)
hgetall-clear_dirty key hashes =
    hgetall-change_hash key (λ h. record h { fields = set_field "dirty" "0" h.fields }) hashes
      (λ h. refl) (set_field "dirty" "0") (λ h. refl)

dirty_cleared :
    (key : String) (hashes : List Hash)
    → get "dirty" (hgetall key (clear_dirty key hashes)) ≡ some "0"
dirty_cleared key hashes =
    rw (hgetall-clear_dirty key hashes) (get-set_field "dirty" "dirty" "0" (hgetall key hashes))

module _ {W : Type 0} ⦃d : Double W⦄ (codec : Codec) where
  not_written :
      (id now : ℕ) (key : String) (hashes : List Hash) (rows : List (Structure W))
      → write_key codec id now key (clear_dirty key hashes) rows ≡ none
  unfolding write_key
  not_written id now key hashes rows = elim (Option-cases (parse_key key)) [
    | inl odd ↦ rw odd refl
    | inr (parts, e) ↦ rw (e, dirty_cleared key hashes) refl
  ]

  -- Before the reset, the hash of a key that can be read goes to Postgres.
  written :
      (id now : ℕ) (key : String) (hashes : List Hash) (rows : List (Structure W))
      (tribe_id struct_key : String)
      → get "dirty" (hgetall key hashes) ≡ some "1"
      → parse_key key ≡ some (tribe_id, struct_key)
      → write_key codec id now key hashes rows
        ≡ upsert_from_cache codec id now tribe_id struct_key (hgetall key hashes) rows
  unfolding write_key
  written id now key hashes rows tribe_id struct_key dirty e = rw (e, dirty) refl

-- a value that may be absent, as text
abbrev pub shown : {A : Type 0} → (A → String) → Option A → String
shown write none = ""
shown write (some a) = write a

abbrev pub digit : Bool → String
digit b = if b then "1" else "0"

module _ {W : Type 0} ⦃d : Double W⦄ (show : ℤ → String) where
  -- The fields of a hash are those of the snapshot.
  pub record Holds (item : StructureItem W) (now : String) (fields : StreamFields) : Type 0 where
    pub class_ : get "class" fields ≡ some item.class_
    pub kind_hint : get "kind_hint" fields ≡ some (shown (λ v. v) item.kind_hint)
    pub x : get "x" fields ≡ some (d.show item.x)
    pub y : get "y" fields ≡ some (d.show item.y)
    pub z : get "z" fields ≡ some (d.show item.z)
    pub item_count : get "item_count" fields ≡ some (shown show item.item_count)
    pub has_item_count : get "has_item_count" fields ≡ some (digit item.has_item_count)
    pub ammo : get "ammo" fields ≡ some (shown (λ (t : TurretPayload W). d.show t.ammo) item.turret)
    pub range :
        get "range" fields ≡ some (shown (λ (t : TurretPayload W). d.show t.range) item.turret)
    pub enabled :
        get "enabled" fields ≡ some (shown (λ (t : TurretPayload W). digit t.enabled) item.turret)
    pub powered :
        get "powered" fields ≡ some (shown (λ (t : TurretPayload W). digit t.powered) item.turret)
    pub last_seen_at : get "last_seen_at" fields ≡ some now

module _ {W : Type 0} ⦃d : Double W⦄ (show : ℤ → String) (tribe_id map_id now : String)
    (item : StructureItem W) (hashes after : List Hash) (struct_key : String) where
  stored_as :
      (o : Option String)
      → store_under show tribe_id now item hashes o ≡ some (struct_key, after)
      → after
        ≡ write_cached (structure_hash_key tribe_id struct_key) now (mapping show item now) hashes
  stored_as none e = absurd cc
  stored_as (some k) e = cc

  -- Fields that are those of the mapping, but for `dirty`, hold the snapshot.
  holds :
      (fields : StreamFields)
      → ((m : String)
          → str_eq "dirty" m ≡ false
          → get m fields
            ≡ final m
                (mapping show item now)
                (get m (set_first now (hgetall (structure_hash_key tribe_id struct_key) hashes))))
      → Holds show item now fields
  holds fields reads = record {
    class_ = reads "class" refl;
    kind_hint = reads "kind_hint" refl;
    x = reads "x" refl;
    y = reads "y" refl;
    z = reads "z" refl;
    item_count = reads "item_count" refl;
    has_item_count = reads "has_item_count" refl;
    ammo = reads "ammo" refl;
    range = reads "range" refl;
    enabled = reads "enabled" refl;
    powered = reads "powered" refl;
    last_seen_at = reads "last_seen_at" refl;
  }

  module _
      (e : after
        ≡ write_cached
            (structure_hash_key tribe_id struct_key)
            now
            (mapping show item now)
            hashes) where
    abbrev hash_key : String
    hash_key = structure_hash_key tribe_id struct_key

    -- a field of the hash after the snapshot
    field_after :
        (m : String)
        → get m (hgetall hash_key after)
          ≡ final m (mapping show item now) (get m (set_first now (hgetall hash_key hashes)))
    field_after m =
        ap (λ h. get m (hgetall hash_key h)) e
        ∙ (ap (get m) (hgetall-write_cached hash_key now (mapping show item now) hashes)
            ∙ get-set_fields m (mapping show item now) (set_first now (hgetall hash_key hashes)))

    -- the same field after the reset
    field_reset :
        (m : String)
        → str_eq "dirty" m ≡ false
        → get m (hgetall hash_key (clear_dirty hash_key after))
          ≡ final m (mapping show item now) (get m (set_first now (hgetall hash_key hashes)))
    field_reset m other =
        ap (get m) (hgetall-clear_dirty hash_key after)
        ∙ (get-set_field m "dirty" "0" (hgetall hash_key after)
            ∙ (ap (λ b. if b then some "0" else get m (hgetall hash_key after)) other
                ∙ field_after m))

    after_snapshot : Holds show item now (hgetall hash_key after)
    after_snapshot = holds (hgetall hash_key after) (λ m other. field_after m)

    after_reset : Holds show item now (hgetall hash_key (clear_dirty hash_key after))
    after_reset = holds (hgetall hash_key (clear_dirty hash_key after)) field_reset

  -- If a snapshot of a structure comes in between the write of its hash to Postgres and the reset of
  -- `dirty`, then a flush before the reset would write the hash with the snapshot in it, if it can read
  -- the key. After the reset the hash still holds every field of the snapshot, but no flush writes it
  -- to Postgres, whatever its time and its rows: not until another snapshot of the structure comes in.
  pub overlapping_snapshot_is_not_flushed :
      (codec : Codec)
      → upsert_cached_structure show tribe_id map_id now item hashes ≡ some (struct_key, after)
      → let key = structure_hash_key tribe_id struct_key in
        Holds show item now (hgetall key after)
        × ((id time : ℕ) (rows : List (Structure W)) (t k : String)
            → parse_key key ≡ some (t, k)
            → write_key codec id time key after rows
              ≡ upsert_from_cache codec id time t k (hgetall key after) rows)
        × Holds show item now (hgetall key (clear_dirty key after))
        × ((id time : ℕ) (rows : List (Structure W))
            → write_key codec id time key (clear_dirty key after) rows ≡ none)
  unfolding upsert_cached_structure
  overlapping_snapshot_is_not_flushed codec e =
      let key = structure_hash_key tribe_id struct_key in
      let same = stored_as (build_struct_key show map_id item.class_ item.x item.y item.z) e in
      (
        after_snapshot same,
        λ id time rows t k read.
            written codec id time key after rows t k (field_after same "dirty") read,
        after_reset same,
        λ id time rows. not_written codec id time key after rows,
      )
