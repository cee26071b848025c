-- ===== src/Sightings/Players.antt =====
-- backend_python/src/services/player_ingest_service.py and repositories/player_repo.py.
pub mod Arrivals
pub mod Latest
use ark_esp_backend.Prelude.{
  ℕ, String, Bool, not, ◌&&◌, ◌||◌, Option, none, some, List, ◌∷◌, ◌==◌, str_eq, if◌then◌else◌,
  is_some, or_raise, raise, raise_if, pure, true, false, map, ◌>>=◌, ◌>>◌,
}
use ark_esp_backend.Prelude.Int.{ℤ}
use ark_esp_backend.Prelude.Table.{find}
use ark_esp_backend.Prelude.Upsert.{upsert, value_or}
use ark_esp_backend.Models.{Person, Player, World, Server}
use ark_esp_backend.Stream.Consumer.{StreamFields, Handler}
use ark_esp_backend.Topology.Session.{
  SessionError, integrity, Work, Tx, query, write, try_write, commit, is_reporter, has_server,
  in_session,
}
use ark_esp_backend.Topology.Servers.{get_or_create_server_by_ip}
use ark_esp_backend.Sightings.Fields.{Reading, Draw, get, optional, text, newer, bind, not_blank}

module _ (W : Type 0) where
  pub record PlayerSighting : Type 0 where
    pub server_ip : String
    pub platform_id : String
    pub character_name : Option String
    pub level : Option ℤ
    pub x : Option W
    pub y : Option W
    pub z : Option W
    pub observed_at : Option ℕ
    pub reported_by_account_id : Option ℕ

module _ {W : Type 0} (rd : Reading W) where
  -- `none` is a ValidationError.
  unfoldable pub parse_sighting : StreamFields → Option (PlayerSighting W)
  parse_sighting fields = bind (get "server_ip" fields) λ server_ip.
      bind (bind (get "platform_id" fields) not_blank) λ platform_id.
        bind (optional text (get "character_name" fields)) λ character_name.
          bind (optional rd.int (get "level" fields)) λ level.
            bind (optional rd.float (get "x" fields)) λ x.
              bind (optional rd.float (get "y" fields)) λ y.
                bind (optional rd.float (get "z" fields)) λ z.
                  bind (optional rd.datetime (get "observed_at" fields)) λ observed_at.
                    bind (optional rd.uuid (get "reported_by_account_id" fields))
                      λ reported_by_account_id. some (record {
                        server_ip = server_ip;
                        platform_id = platform_id;
                        character_name = character_name;
                        level = level;
                        x = x;
                        y = y;
                        z = z;
                        observed_at = observed_at;
                        reported_by_account_id = reported_by_account_id;
                      })

-- `select(Player).where(server_id, platform_id)`
abbrev pub is_player : {W : Type 0} → ℕ → String → Player W → Bool
is_player server_id platform_id r = r.server_id == server_id && str_eq r.platform_id platform_id

module _ {W : Type 0} where
  abbrev pub new_player : (id server_id : ℕ) → String → Player W
  new_player id server_id platform_id = record {
    id = id;
    server_id = server_id;
    platform_id = platform_id;
    character_name = none;
    level = none;
    x = none;
    y = none;
    z = none;
    last_seen_at = none;
    updated_at = none;
    last_updated_by_account_id = none;
  }

  -- the assignments of `upsert_player`
  unfoldable pub observe : ℕ → PlayerSighting W → Player W → Player W
  observe now s r = record r {
    character_name = newer s.character_name r.character_name;
    level = newer s.level r.level;
    x = newer s.x r.x;
    y = newer s.y r.y;
    z = newer s.z r.z;
    last_seen_at = some (value_or now s.observed_at);
    updated_at = some now;
    last_updated_by_account_id = newer s.reported_by_account_id r.last_updated_by_account_id;
  }

  unfoldable pub get_or_create_person : String → Work W Unit
  get_or_create_person platform_id = write λ w.
      if is_some (find (λ (p : Person). str_eq p.platform_id platform_id) w.persons)
      then w
      else record w { persons = record { platform_id = platform_id } ∷ w.persons }

  abbrev set_players : World W → Option (List (Player W)) → Option (World W)
  set_players w none = none
  set_players w (some rows) = some (record w { players = rows })

  -- the foreign keys of the row
  abbrev pub is_referable : ℕ → PlayerSighting W → World W → Bool
  is_referable server_id s w =
      has_server server_id w.servers
      && (is_some (find (λ (p : Person). str_eq p.platform_id s.platform_id) w.persons)
          && is_reporter s.reported_by_account_id w)

  unfoldable pub upsert_player : (id now server_id : ℕ) → PlayerSighting W → Work W Unit
  upsert_player id now server_id s = do
    try_write λ w. set_players w (
        upsert (λ r. r.id) (is_player server_id s.platform_id) (observe now s)
          (new_player id server_id s.platform_id) w.players)
    known ← query (is_referable server_id s)
    raise_if (not known) integrity
    commit

  module _ (rd : Reading W) where
    unfoldable pub ingest_player_sighting : Draw → PlayerSighting W → Work W Unit
    ingest_player_sighting draw s = do
      server ← get_or_create_server_by_ip rd.inet draw.server s.server_ip
      get_or_create_person s.platform_id
      upsert_player draw.row draw.now server.id s

    abbrev ingest_parsed : Draw → Option (PlayerSighting W) → World W → Bool × World W
    ingest_parsed draw none w = (true, w)
    ingest_parsed draw (some s) w = in_session (ingest_player_sighting draw s) w

    -- `make_handler`: a message that cannot be parsed is done with
    unfoldable pub player_handler : (World W → Draw) → Handler (World W)
    player_handler draws fields w = ingest_parsed (draws w) (parse_sighting rd fields) w
