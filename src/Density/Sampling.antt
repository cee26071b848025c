-- ===== src/Density/Sampling.antt =====
-- `sample_once`: the rooms of all groups, one after the other. `groups` are the ids that `_group_ids` reads.
use ark_esp_backend.Prelude.{
  ℕ, ◌+◌, ◌-◌, ◌*◌, String, Option, none, some, List, [], ◌∷◌, Result, ok, err,
}
use ark_esp_backend.Prelude.Double.{Double}
use ark_esp_backend.Models.{World}
use ark_esp_backend.Topology.Session.{SessionError, value_error, Work}
use ark_esp_backend.Sightings.Fields.{Draw}
use ark_esp_backend.Density.Rooms.{
  Redis, DensitySetting, room_prefix, room_suffix, server_ip_from_room_key,
}
use ark_esp_backend.Density.Counting.{Counts, collect_room}
use ark_esp_backend.Density.Cells.{write_cells}

module _ (W : Type 0) ⦃d : Double W⦄ (setting : DensitySetting) (inet : String → Option String)
    (draws : World W → Draw) (redis : Redis) (observed_at : ℕ) where
  -- `with session_factory()`: the result, and what was committed
  abbrev with_session : Work W ℕ → World W → Result SessionError ℕ × World W
  with_session body w = let (r, t) = body (record { db = w; saved = w }) in (r, t.saved)

  abbrev write_counts : String → Option Counts → World W → Result SessionError ℕ × World W
  write_counts server_ip none w = (err value_error, w)
  write_counts server_ip (some []) w = (ok 0, w)
  write_counts server_ip (some (c ∷ counts)) w =
      with_session (write_cells setting inet draws server_ip (c ∷ counts) observed_at) w

  abbrev sample_ip : String → Option String → World W → Result SessionError ℕ × World W
  sample_ip room_key none w = (ok 0, w)
  sample_ip room_key (some server_ip) w =
      let floor = observed_at - setting.live_floor_seconds * 1000000 in
      write_counts server_ip (collect_room W setting.cell_size_units redis room_key floor) w

  unfoldable pub sample_room : String → String → World W → Result SessionError ℕ × World W
  sample_room group_id room_key w = sample_ip room_key (server_ip_from_room_key room_key group_id) w

  -- An exception ends the sample; what was committed before stays.
  abbrev then_next :
      ℕ
      → Result SessionError ℕ × World W
      → (ℕ → World W → Result SessionError ℕ × World W)
      → Result SessionError ℕ × World W
  then_next written (ok n, w) next = next (written + n) w
  then_next written (err e, w) next = (err e, w)

  unfoldable pub sample_rooms : String → List String → ℕ → World W → Result SessionError ℕ × World W
  sample_rooms group_id [] written w = (ok written, w)
  sample_rooms group_id (room_key ∷ rest) written w =
      then_next written (sample_room group_id room_key w) (sample_rooms group_id rest)

  unfoldable pub sample_groups : List String → ℕ → World W → Result SessionError ℕ × World W
  sample_groups [] written w = (ok written, w)
  sample_groups (g ∷ rest) written w =
      then_next 0 (sample_rooms g (redis.scan (room_prefix g) room_suffix) written w)
        (sample_groups rest)

  unfoldable pub sample_once : List String → World W → Result SessionError ℕ × World W
  sample_once groups w = sample_groups groups 0 w
