-- ===== src/Snapshots/Store.antt =====
-- services/structure_store.py. How Python writes numbers and dates is a parameter.
use ark_esp_backend.Prelude.{ℕ, String, Bool, Option, none, some, List, [], ◌∷◌, if◌then◌else◌}
use ark_esp_backend.Prelude.Int.{ℤ}
use ark_esp_backend.Prelude.Double.{Double}
use ark_esp_backend.Stream.Consumer.{StreamFields}
use ark_esp_backend.Snapshots.Hashes.{Hash, hset, hsetnx, expire}
use ark_esp_backend.Snapshots.Keys.{structure_hash_key, build_struct_key}

module _ (W : Type 0) where
  pub record TurretPayload : Type 0 where
    pub ammo : W
    pub range : W
    pub enabled : Bool
    pub powered : Bool

  pub record StructureItem : Type 0 where
    pub class_ : String
    pub kind_hint : Option String
    pub x : W
    pub y : W
    pub z : W
    pub tribe_name : String
    pub team : ℤ
    pub item_count : Option ℤ
    pub has_item_count : Bool
    pub turret : Option TurretPayload

-- `STRUCTURE_CACHE_TTL_SECONDS`
abbrev pub cache_ttl_seconds : ℕ
cache_ttl_seconds = 86400

abbrev flag : Bool → String
flag b = if b then "1" else "0"

abbrev text_or : {A : Type 0} → (A → String) → Option A → String
text_or show none = ""
text_or show (some a) = show a

-- the pipeline, in one transaction
abbrev pub write_cached : String → String → StreamFields → List Hash → List Hash
write_cached key now fields hashes =
    expire key cache_ttl_seconds (hset key fields (hsetnx key "first_seen_at" now hashes))

module _ {W : Type 0} ⦃d : Double W⦄ (show : ℤ → String) where
  -- the mapping of the HSET
  abbrev pub mapping : StructureItem W → String → StreamFields
  mapping item now =
      ("class", item.class_)
      ∷ ("kind_hint", text_or (λ v. v) item.kind_hint)
      ∷ ("x", d.show item.x)
      ∷ ("y", d.show item.y)
      ∷ ("z", d.show item.z)
      ∷ ("item_count", text_or show item.item_count)
      ∷ ("has_item_count", flag item.has_item_count)
      ∷ ("ammo", text_or (λ (t : TurretPayload W). d.show t.ammo) item.turret)
      ∷ ("range", text_or (λ (t : TurretPayload W). d.show t.range) item.turret)
      ∷ ("enabled", text_or (λ (t : TurretPayload W). flag t.enabled) item.turret)
      ∷ ("powered", text_or (λ (t : TurretPayload W). flag t.powered) item.turret)
      ∷ ("last_seen_at", now)
      ∷ ("dirty", "1")
      ∷ []

  abbrev pub store_under :
      String → String → StructureItem W → List Hash → Option String → Option (String × List Hash)
  store_under tribe_id now item hashes none = none
  store_under tribe_id now item hashes (some struct_key) = some (
    struct_key,
    write_cached (structure_hash_key tribe_id struct_key) now (mapping item now) hashes,
  )

  -- `none` is an exception; `now` is the time as it is written.
  unfoldable pub upsert_cached_structure :
      (tribe_id map_id now : String) → StructureItem W → List Hash → Option (String × List Hash)
  upsert_cached_structure tribe_id map_id now item hashes =
      store_under tribe_id now item hashes
        (build_struct_key show map_id item.class_ item.x item.y item.z)
