-- ===== src/Density/Cells.antt =====
-- dino_density_repo.upsert_cell and `_write_cells`.
use ark_esp_backend.Prelude.{
  ℕ, suc, max, String, Bool, not, ◌&&◌, Option, none, some, List, [], ◌∷◌, ◌==◌, if◌then◌else◌,
  raise_if, pure, ◌>>=◌, ◌>>◌,
}
use ark_esp_backend.Prelude.Int.{ℤ, ◌==ℤ◌}
use ark_esp_backend.Prelude.Upsert.{upsert}
use ark_esp_backend.Models.{World, DinoDensity, Tribe}
use ark_esp_backend.Topology.Session.{
  integrity, Work, query, try_write, commit, is_reporter, has_server, has_tribe,
}
use ark_esp_backend.Topology.Servers.{get_or_create_server_by_ip}
use ark_esp_backend.Topology.Tribes.{get_or_create_tribe}
use ark_esp_backend.Sightings.Fields.{Draw}
use ark_esp_backend.Density.Rooms.{Cell, DensitySetting, bucket_start_for}
use ark_esp_backend.Density.Counting.{Counts}

-- the columns of uq_dino_density_cell
pub record CellKey : Type 0 where
  pub server_id : ℕ
  pub tribe_id : ℕ
  pub cell_size_units : ℕ
  pub cell_x : ℤ
  pub cell_y : ℤ
  pub bucket_start : ℕ

abbrev pub key_of : DinoDensity → CellKey
key_of r = record {
  server_id = r.server_id;
  tribe_id = r.tribe_id;
  cell_size_units = r.cell_size_units;
  cell_x = r.cell_x;
  cell_y = r.cell_y;
  bucket_start = r.bucket_start;
}

abbrev pub same_key : CellKey → CellKey → Bool
same_key a b =
    a.server_id == b.server_id
    && (a.tribe_id == b.tribe_id
        && (a.cell_size_units == b.cell_size_units
            && (a.cell_x ==ℤ b.cell_x
                && (a.cell_y ==ℤ b.cell_y && a.bucket_start == b.bucket_start))))

abbrev pub is_cell : CellKey → DinoDensity → Bool
is_cell k r = same_key (key_of r) k

-- VALUES of the INSERT
abbrev pub new_density : ℕ → CellKey → (count observed_at : ℕ) → Option ℕ → DinoDensity
new_density id k count observed_at reporter = record {
  id = id;
  server_id = k.server_id;
  tribe_id = k.tribe_id;
  cell_size_units = k.cell_size_units;
  cell_x = k.cell_x;
  cell_y = k.cell_y;
  bucket_start = k.bucket_start;
  count_max = count;
  count_last = count;
  observed_at = observed_at;
  reported_by_account_id = reporter;
}

-- ON CONFLICT DO UPDATE. A row that is inserted stays as it is under it.
unfoldable pub resample : (count observed_at : ℕ) → Option ℕ → DinoDensity → DinoDensity
resample count observed_at reporter r = record r {
  count_last = count;
  count_max = max r.count_max count;
  observed_at = observed_at;
  reported_by_account_id = reporter;
}

module _ {W : Type 0} where
  abbrev set_densities : World W → Option (List DinoDensity) → Option (World W)
  set_densities w none = none
  set_densities w (some rows) = some (record w { densities = rows })

  -- the foreign keys of the row
  abbrev pub is_referable : CellKey → Option ℕ → World W → Bool
  is_referable k reporter w =
      has_server k.server_id w.servers
      && (has_tribe (some k.tribe_id) w.tribes && is_reporter reporter w)

  unfoldable pub upsert_cell : (id : ℕ) → CellKey → (count observed_at : ℕ) → Option ℕ → Work W Unit
  upsert_cell id k count observed_at reporter = do
    try_write λ w. set_densities w (
        upsert (λ r. r.id) (is_cell k) (resample count observed_at reporter)
          (new_density id k count observed_at reporter) w.densities)
    known ← query (is_referable k reporter)
    raise_if (not known) integrity
    commit

  module _ (setting : DensitySetting) (draws : World W → Draw) (observed_at server_id : ℕ) where
    abbrev write_cell : Cell → ℕ → Option Tribe → Work W ℕ
    write_cell cell count none = pure 0
    write_cell cell count (some tribe) = do
      draw ← query draws
      upsert_cell draw.row
          (record {
            server_id = server_id;
            tribe_id = tribe.id;
            cell_size_units = setting.cell_size_units;
            cell_x = cell.cell_x;
            cell_y = cell.cell_y;
            bucket_start = bucket_start_for observed_at setting.bucket_seconds;
          })
          count observed_at none
      pure 1

    -- the loop, with the number of cells written so far
    unfoldable pub write_each : Counts → ℕ → Work W ℕ
    write_each [] written = pure written
    write_each ((cell, count) ∷ rest) written = do
      draw ← query draws
      tribe ← get_or_create_tribe draw.tribe server_id (some cell.tribe) (some cell.team)
      one ← write_cell cell count tribe
      write_each rest (if one == 1 then suc written else written)

  unfoldable pub write_cells :
      DensitySetting → (String → Option String) → (World W → Draw) → String → Counts → ℕ → Work W ℕ
  write_cells setting inet draws server_ip counts observed_at = do
    draw ← query draws
    server ← get_or_create_server_by_ip inet draw.server server_ip
    write_each setting draws observed_at server.id counts 0
