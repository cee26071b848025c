-- ===== src/Sightings/Players/Latest.antt =====
-- What a sequence of sightings leaves of a player: player_repo.upsert_player.
use ark_esp_backend.Prelude.{
  ℕ, String, ◌≡◌, refl, ap, ◌∙◌, Bool, true, ◌&&◌, Option, none, some, List, [], ◌∷◌, ◌==◌, str_eq,
  if◌then◌else◌, map, inl, inr, Bool-cases,
}
use ark_esp_backend.Prelude.Table.{find, select}
use ark_esp_backend.Prelude.Upsert.{value_or}
use ark_esp_backend.Models.{Player, World}
use ark_esp_backend.Sightings.Fields.{Draw, newer}
use ark_esp_backend.Sightings.Keys.{key_eq, key_apart}
use ark_esp_backend.Sightings.Players.{PlayerSighting, is_player, new_player, observe}
use ark_esp_backend.Sightings.Players.Arrivals.{
  Arrival, store_all, IsFresh, IsReady, Written, first_stored, all_stored,
}

abbrev or_else : {A : Type 0} → Option A → Option A → Option A
or_else none b = b
or_else (some a) b = some a

-- the last value that is there
abbrev pub last_of : {A : Type 0} → List (Option A) → Option A
last_of [] = none
last_of (o ∷ os) = or_else (last_of os) o

abbrev pub is_of : {W : Type 0} → ℕ → String → Arrival W → Bool
is_of server_id platform_id a =
    a.server_id == server_id && str_eq a.sighting.platform_id platform_id

abbrev pub field : {W A : Type 0} → (Player W → Option A) → Option (Player W) → Option A
field g none = none
field g (some r) = g r

module _ {W : Type 0} where
  -- what a field of a player holds before the first and after the last arrival
  abbrev Follows :
      {A : Type 0}
      → ℕ
      → String
      → (Player W → Option A)
      → (PlayerSighting W → Option A)
      → List (Arrival W)
      → World W
      → World W
      → Type 0
  Follows server_id platform_id g f arrivals w w' =
      field g (find (is_player server_id platform_id) w'.players)
      ≡ or_else
          (last_of
            (map (λ (a : Arrival W). f a.sighting) (select (is_of server_id platform_id) arrivals)))
          (field g (find (is_player server_id platform_id) w.players))

  pub record IsLatest (server_id : ℕ) (platform_id : String) (arrivals : List (Arrival W))
      (w w' : World W) : Type 0 where
    pub character_name :
        Follows server_id platform_id (λ r. r.character_name) (λ s. s.character_name) arrivals w w'
    pub level : Follows server_id platform_id (λ r. r.level) (λ s. s.level) arrivals w w'
    pub x : Follows server_id platform_id (λ r. r.x) (λ s. s.x) arrivals w w'
    pub y : Follows server_id platform_id (λ r. r.y) (λ s. s.y) arrivals w w'
    pub z : Follows server_id platform_id (λ r. r.z) (λ s. s.z) arrivals w w'
    pub reporter :
        Follows server_id platform_id
          (λ r. r.last_updated_by_account_id)
          (λ s. s.reported_by_account_id)
          arrivals
          w
          w'

-- `observe` and `newer` on one column
pub record IsColumn {W A : Type 0} (g : Player W → Option A) (f : PlayerSighting W → Option A)
    : Type 0 where
  pub merges :
      (now : ℕ) (s : PlayerSighting W) (r : Player W) → g (observe now s r) ≡ newer (f s) (g r)
  pub starts :
      (id server_id : ℕ) (platform_id : String) → g (new_player id server_id platform_id) ≡ none

or_else-newer :
    {A : Type 0} (o b old : Option A) → or_else o (newer b old) ≡ or_else (or_else o b) old
or_else-newer none none old = refl
or_else-newer none (some b) old = refl
or_else-newer (some a) b old = refl

module _ {W A : Type 0} (g : Player W → Option A) (f : PlayerSighting W → Option A)
    (c : IsColumn g f) where
  -- what one arrival does to a column of the player that is looked up
  merged :
      (id now server_id : ℕ) (s : PlayerSighting W) (o : Option (Player W))
      → field g (some (observe now s (value_or (new_player id server_id s.platform_id) o)))
        ≡ newer (f s) (field g o)
  merged id now server_id s none =
      rw
        (
          c.merges now s (new_player id server_id s.platform_id),
          c.starts id server_id s.platform_id,
        )
        refl
  merged id now server_id s (some r) = c.merges now s r

  module _ (server_id : ℕ) (platform_id : String) (draws : World W → Draw) (a : Arrival W)
      (w : World W) (rows : List (Player W)) (h : Written draws a w rows) where
    one_arrival : field g (find (is_player server_id platform_id) rows) ≡ (
        if is_of server_id platform_id a
        then newer (f a.sighting) (field g (find (is_player server_id platform_id) w.players))
        else field g (find (is_player server_id platform_id) w.players))
    unfolding observe
    one_arrival = elim (Bool-cases (is_of server_id platform_id a)) [
      | inl own ↦
          let (e, e') = key_eq a.server_id server_id a.sighting.platform_id platform_id own in
          rw (own, ← e, ← e', h.same)
            (merged (draws w).row (draws w).now a.server_id a.sighting
              (find (is_player a.server_id a.sighting.platform_id) w.players))
      | inr other ↦
          rw
            (
              other,
              h.other (is_player server_id platform_id) (λ x. refl)
                  λ x hit.
                    key_apart x.server_id a.server_id server_id x.platform_id a.sighting.platform_id
                      platform_id hit other,
            )
            refl
    ]

module _ {W : Type 0} (draws : World W → Draw) (fresh : IsFresh draws) where
  module _ {A : Type 0} (g : Player W → Option A) (f : PlayerSighting W → Option A)
      (c : IsColumn g f) (server_id : ℕ) (platform_id : String) where
    column :
        (arrivals : List (Arrival W)) (w : World W)
        → IsReady draws fresh arrivals w
        → Follows server_id platform_id g f arrivals w (store_all draws arrivals w).1
    column [] w r = refl
    column (a ∷ rest) w r =
        let (rows, e, h, r') = first_stored draws fresh a rest w r in
        let later = column rest (record w { players = rows }) r' in
        let now = one_arrival g f c server_id platform_id draws a w rows h in
        elim (Bool-cases (is_of server_id platform_id a)) [
          | inl own ↦
              let values = last_of (
                map (λ (x : Arrival W). f x.sighting)
                  (select (is_of server_id platform_id) rest)) in
              let before = field g (find (is_player server_id platform_id) w.players) in
              let now' : field g (find (is_player server_id platform_id) rows)
                  ≡ newer (f a.sighting) before =
                rw own at now in
              rw (e, own)
                (later ∙ (ap (or_else values) now' ∙ or_else-newer values (f a.sighting) before))
          | inr other ↦
              let now' : field g (find (is_player server_id platform_id) rows)
                  ≡ field g (find (is_player server_id platform_id) w.players) =
                rw other at now in
              rw (e, other, ← now') later
        ]

  -- A sequence of sightings that are stored one by one leaves, in the name, the level, the place and
  -- the reporter of each player of a server, the last value that a sighting of this player had, or
  -- what the column held before where no sighting had one; and every sighting is stored. This is
  -- where ids are unique and drawn fresh, names of tribes are unique, and the servers, persons and
  -- reporters of the sightings are in the database.
  pub every_column-IsLatest :
      (arrivals : List (Arrival W)) (w : World W)
      → IsReady draws fresh arrivals w
      → ((store_all draws arrivals w).0 ≡ true)
        × ((server_id : ℕ) (platform_id : String)
            → IsLatest server_id platform_id arrivals w (store_all draws arrivals w).1)
  unfolding observe
  every_column-IsLatest arrivals w r = (
    all_stored draws fresh arrivals w r,
    λ server_id platform_id. record {
      character_name =
          column (λ x. x.character_name) (λ s. s.character_name)
            (record { merges = λ now s x. refl; starts = λ id m p. refl }) server_id platform_id
            arrivals w r;
      level =
          column (λ x. x.level) (λ s. s.level)
            (record { merges = λ now s x. refl; starts = λ id m p. refl }) server_id platform_id
            arrivals w r;
      x =
          column (λ x. x.x) (λ s. s.x)
            (record { merges = λ now s x. refl; starts = λ id m p. refl }) server_id platform_id
            arrivals w r;
      y =
          column (λ x. x.y) (λ s. s.y)
            (record { merges = λ now s x. refl; starts = λ id m p. refl }) server_id platform_id
            arrivals w r;
      z =
          column (λ x. x.z) (λ s. s.z)
            (record { merges = λ now s x. refl; starts = λ id m p. refl }) server_id platform_id
            arrivals w r;
      reporter =
          column (λ x. x.last_updated_by_account_id) (λ s. s.reported_by_account_id)
            (record { merges = λ now s x. refl; starts = λ id m p. refl }) server_id platform_id
            arrivals w r;
    },
  )
