-- ===== src/Topology/Servers.antt =====
-- `_split_ip_port` and `get_or_create_server_by_ip`. `inet` is how Postgres reads a text as INET:
-- `none` where it refuses to, and equal texts for equal addresses.
use ark_esp_backend.Prelude.{
  ℕ, String, Bool, false, ◌&&◌, ◌||◌, Option, none, some, ◌∷◌, ◌==◌, str_eq, if◌then◌else◌, is_some,
  or_raise, pure, ◌>>=◌, ◌>>◌,
}
use ark_esp_backend.Prelude.Int.{ℤ, equals_int}
use ark_esp_backend.Prelude.Table.{find}
use ark_esp_backend.Models.{Server, World}
use ark_esp_backend.Topology.Text.{rpartition_colon, parse_int, strip_brackets}
use ark_esp_backend.Topology.Session.{
  value_error, data_error, integrity, Work, query, rollback, flush_or,
}

abbrev pub unknown_map_code : String
unknown_map_code = "unknown"

abbrev with_port : String → Option ℤ → Option (String × ℤ)
with_port host none = none
with_port host (some port) = if str_eq host "" then none else some (strip_brackets host, port)

abbrev halves : Option (String × String) → Option (String × ℤ)
halves none = none
halves (some (host, port)) = with_port host (parse_int port)

-- `none` is a ValueError.
unfoldable pub split_ip_port : String → Option (String × ℤ)
split_ip_port server_ip = halves (rpartition_colon server_ip)

abbrev equals_text : Option String → String → Bool
equals_text none s = false
equals_text (some t) s = str_eq t s

abbrev pub is_at : String × ℤ → Server → Bool
is_at (ip, port) r = equals_text r.ip_address ip && equals_int r.port port

-- the unique pair of address and port
abbrev same_place : Server → Server → Bool
same_place r x = is_place r.ip_address r.port x
  where
    is_place : Option String → Option ℤ → Server → Bool
    is_place (some ip) (some port) x = is_at (ip, port) x
    is_place none port x = false
    is_place (some ip) none x = false

abbrev pub new_server : ℕ → String → String × ℤ → Server
new_server id server_ip (ip, port) = record {
  id = id;
  name = server_ip;
  ip_address = some ip;
  port = some port;
  map_code = unknown_map_code;
}

module _ {W : Type 0} where
  unfoldable pub insert_server : Server → World W → Option (World W)
  insert_server r w =
      if is_some (find (λ x. x.id == r.id) w.servers) || is_some (find (same_place r) w.servers)
      then none
      else some (record w { servers = r ∷ w.servers })

  module _ (inet : String → Option String) (id : ℕ) (server_ip : String) where
    abbrev found_or_insert : String × ℤ → Option Server → Work W Server
    found_or_insert place (some server) = pure server
    found_or_insert place none =
        let server = new_server id server_ip place in
        flush_or (insert_server server) server
          do rollback; found ← query (λ w. find (is_at place) w.servers); or_raise found integrity

    unfoldable pub get_or_create_server_by_ip : Work W Server
    get_or_create_server_by_ip = do
      (host, port) ← or_raise (split_ip_port server_ip) value_error
      ip ← or_raise (inet host) data_error
      found ← query (λ w. find (is_at (ip, port)) w.servers)
      found_or_insert (ip, port) found
