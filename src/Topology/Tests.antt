-- ===== src/Topology/Tests.antt =====
-- Addresses as the relay sends them, and tribes that are looked up.
use ark_esp_backend.Prelude.{ℕ, String, ◌≡◌, refl, Option, none, some, [], ◌∷◌, ok}
use ark_esp_backend.Prelude.Int.{ℤ, pos, negsuc}
use ark_esp_backend.Models.{Tribe, World}
use ark_esp_backend.Topology.Text.{parse_int}
use ark_esp_backend.Topology.Session.{Tx}
use ark_esp_backend.Topology.Servers.{split_ip_port}
use ark_esp_backend.Topology.Tribes.{get_or_create_tribe}
use ark_esp_backend.Topology.Numbers.{HasOwnNumbers}
use ark_esp_backend.Topology.Unshared.{Keeps, get_or_create_tribe-Keeps}

ipv4 : split_ip_port "10.0.0.1:7777" ≡ some ("10.0.0.1", pos 7777)
unfolding split_ip_port parse_int
ipv4 = refl

brackets_fall : split_ip_port "[::1]:7777" ≡ some ("::1", pos 7777)
unfolding split_ip_port parse_int
brackets_fall = refl

port_is_missing : split_ip_port "10.0.0.1" ≡ none
unfolding split_ip_port parse_int
port_is_missing = refl

host_is_missing : split_ip_port ":7777" ≡ none
unfolding split_ip_port parse_int
host_is_missing = refl

-- `int()` allows spaces, signs and underscores, so a port may be negative.
port_is_odd : split_ip_port "10.0.0.1: -1_0" ≡ some ("10.0.0.1", negsuc 9)
unfolding split_ip_port parse_int
port_is_odd = refl

abbrev tribe : ℕ → Option ℤ → String → Tribe
tribe id number name = record { id = id; server_id = 1; ark_tribe_id = number; name = name }

-- One tribe is known by its number, another one by its name alone.
abbrev world : World ℕ
world = record {
  accounts = [];
  servers = [];
  persons = [];
  tribes = tribe 1 (some (pos 5)) "bears" ∷ tribe 2 none "wolves" ∷ [];
  species = [];
  structure_classes = [];
  players = [];
  structures = [];
  turrets = [];
  dinos = [];
  densities = [];
}

abbrev session : Tx ℕ
session = record { db = world; saved = world }

number_is_filled_in :
    (get_or_create_tribe 3 1 (some "wolves") (some (pos 6)) session).0
    ≡ ok (some (tribe 2 (some (pos 6)) "wolves"))
unfolding get_or_create_tribe
number_is_filled_in = refl

world-HasOwnNumbers : HasOwnNumbers world.tribes
world-HasOwnNumbers = record { ids = (refl, (refl, tt)); numbers = (refl, (refl, tt)) }

get_or_create_tribe-Keeps_example :
    Keeps (get_or_create_tribe 3 1 (some "wolves") (some (pos 6)) session)
get_or_create_tribe-Keeps_example =
    get_or_create_tribe-Keeps 3 1 session (world-HasOwnNumbers, world-HasOwnNumbers) (some "wolves")
      (some (pos 6))
