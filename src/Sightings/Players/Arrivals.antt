-- ===== src/Sightings/Players/Arrivals.antt =====
-- A sequence of sightings, one call of player_repo.upsert_player after the other.
use ark_esp_backend.Prelude.{
  ℕ, ◌≡◌, refl, Bool, true, ◌&&◌, Option, none, some, List, [], ◌∷◌, ==_refl, eq_refl, and_true,
}
use ark_esp_backend.Prelude.Table.{find}
use ark_esp_backend.Prelude.Unique.{has_key, HasUniqueKeys}
use ark_esp_backend.Prelude.Upsert.{upsert, upsert_returns, IsChange, IsUpserted, upsert-IsUpserted}
use ark_esp_backend.Models.{Player, World}
use ark_esp_backend.Topology.Session.{is_reporter, names_are_unique, commit, in_session}
use ark_esp_backend.Sightings.Fields.{Draw}
use ark_esp_backend.Sightings.Players.{
  PlayerSighting, is_player, new_player, observe, is_referable, upsert_player,
}

-- a sighting, with the server that its address is of
pub record Arrival (W : Type 0) : Type 0 where
  pub server_id : ℕ
  pub sighting : PlayerSighting W

module _ {W : Type 0} (draws : World W → Draw) where
  -- `session_factory()` and `upsert_player`, once for each arrival
  unfoldable pub store_one : Arrival W → World W → Bool × World W
  store_one a w = in_session (upsert_player (draws w).row (draws w).now a.server_id a.sighting) w

  abbrev pub store_all : List (Arrival W) → World W → Bool × World W
  store_all [] w = (true, w)
  store_all (a ∷ rest) w =
      let (b, w1) = store_one a w in let (bs, w2) = store_all rest w1 in (b && bs, w2)

-- The ids that are drawn are free.
abbrev pub IsFresh : {W : Type 0} → (World W → Draw) → Type 0
IsFresh {W} draws = (w : World W) → find (has_key (λ r. r.id) (draws w).row) w.players ≡ none

-- The foreign keys of every sighting are in the database.
abbrev pub all_referable : {W : Type 0} → List (Arrival W) → World W → Bool
all_referable [] w = true
all_referable (a ∷ rest) w = is_referable a.server_id a.sighting w && all_referable rest w

module _ {W : Type 0} (id now server_id : ℕ) (s : PlayerSighting W) where
  observe-IsChange :
      IsChange
        (λ r. r.id)
        (is_player server_id s.platform_id)
        (observe now s)
        (new_player id server_id s.platform_id)
  unfolding observe
  observe-IsChange = record {
    keeps_id = λ x. refl;
    keeps = λ x. refl;
    meets = rw (==_refl server_id, eq_refl) refl;
  }

is_reporter-players :
    {W : Type 0} (id : Option ℕ) (w : World W) (rows : List (Player W))
    → is_reporter id (record w { players = rows }) ≡ is_reporter id w
is_reporter-players none w rows = refl
is_reporter-players (some n) w rows = refl

is_referable-players :
    {W : Type 0} (a : Arrival W) (w : World W) (rows : List (Player W))
    → is_referable a.server_id a.sighting (record w { players = rows })
      ≡ is_referable a.server_id a.sighting w
is_referable-players a w rows =
    rw (is_reporter-players a.sighting.reported_by_account_id w rows) refl

module _ {W : Type 0} (draws : World W → Draw) (a : Arrival W) (w : World W) where
  abbrev pub Written : List (Player W) → Type 0
  Written rows =
      IsUpserted (λ r. r.id) (is_player a.server_id a.sighting.platform_id)
        (observe (draws w).now a.sighting)
        (new_player (draws w).row a.server_id a.sighting.platform_id) w.players rows

  stored_as :
      names_are_unique w.tribes ≡ true
      → is_referable a.server_id a.sighting w ≡ true
      → (rows : List (Player W))
      → upsert
          (λ r. r.id)
          (is_player a.server_id a.sighting.platform_id)
          (observe (draws w).now a.sighting)
          (new_player (draws w).row a.server_id a.sighting.platform_id)
          w.players
        ≡ some rows
      → store_one draws a w ≡ (true, record w { players = rows })
  unfolding store_one upsert_player in_session commit
  stored_as names known rows e = rw (e, is_referable-players a w rows, known, names) refl

  -- one arrival: it is stored, and only the row of its player changes
  stored :
      find (has_key (λ r. r.id) (draws w).row) w.players ≡ none
      → HasUniqueKeys (λ r. r.id) w.players
      → names_are_unique w.tribes ≡ true
      → is_referable a.server_id a.sighting w ≡ true
      → (rows : List (Player W)) × (store_one draws a w ≡ (true, record w { players = rows }))
        × Written rows
  stored free u names known =
      let q = is_player a.server_id a.sighting.platform_id in
      let f = observe (draws w).now a.sighting in
      let fresh = new_player (draws w).row a.server_id a.sighting.platform_id in
      let (rows, e) = upsert_returns (λ (r : Player W). r.id) q f fresh w.players free in
      let change = observe-IsChange (draws w).row (draws w).now a.server_id a.sighting in
      (
        rows,
        stored_as names known rows e,
        upsert-IsUpserted (λ r. r.id) q f fresh w.players change rows u e,
      )

all_referable-players :
    {W : Type 0} (arrivals : List (Arrival W)) (w : World W) (rows : List (Player W))
    → all_referable arrivals (record w { players = rows }) ≡ all_referable arrivals w
all_referable-players [] w rows = refl
all_referable-players (a ∷ rest) w rows =
    rw (is_referable-players a w rows, all_referable-players rest w rows) refl

module _ {W : Type 0} (draws : World W → Draw) (fresh : IsFresh draws) where
  -- what the runs start from, and keep
  pub record IsReady (arrivals : List (Arrival W)) (w : World W) : Type 0 where
    pub ids : HasUniqueKeys (λ r. r.id) w.players
    pub names : names_are_unique w.tribes ≡ true
    pub known : all_referable arrivals w ≡ true

  module _ (a : Arrival W) (rest : List (Arrival W)) (w : World W) (r : IsReady (a ∷ rest) w) where
    pub first_stored :
        (rows : List (Player W)) × (store_one draws a w ≡ (true, record w { players = rows }))
        × Written draws a w rows
        × IsReady rest (record w { players = rows })
    first_stored =
        let (k, ks) =
          and_true (is_referable a.server_id a.sighting w) (all_referable rest w) r.known in
        let (rows, e, h) = stored draws a w (fresh w) r.ids r.names k in
        (
          rows,
          e,
          h,
          record {
            ids = h.unique;
            names = r.names;
            known = rw (all_referable-players rest w rows) ks;
          },
        )

  pub all_stored :
      (arrivals : List (Arrival W)) (w : World W)
      → IsReady arrivals w
      → (store_all draws arrivals w).0 ≡ true
  all_stored [] w r = refl
  all_stored (a ∷ rest) w r =
      let (rows, e, h, r') = first_stored a rest w r in
      rw e (all_stored rest (record w { players = rows }) r')
