-- ===== src/Models/Observed.antt =====
-- What is observed of the game: backend_python/src/models/topology.py, tribe.py, player.py,
-- ark_lookups.py, ark_structure.py, tamed_dino.py and dino_density.py. `W` is the type of doubles.
-- Columns that no code of the services reads or writes are left out: names of platforms, colours,
-- levels of dinos, decay times, generators and tribe logs.
use ark_esp_backend.Prelude.{ℕ, String, Bool, Option, List}
use ark_esp_backend.Prelude.Int.{ℤ}
use ark_esp_backend.Models.Accounts.{Account}

pub record Server : Type 0 where
  pub id : ℕ
  pub name : String
  pub ip_address : Option String
  pub port : Option ℤ
  pub map_code : String

pub record Person : Type 0 where
  pub platform_id : String

pub record Tribe : Type 0 where
  pub id : ℕ
  pub server_id : ℕ
  pub ark_tribe_id : Option ℤ
  pub name : String

pub record Species : Type 0 where
  pub id : ℕ
  pub blueprint_path : String
  pub display_name : String

pub record StructureClass : Type 0 where
  pub code : String
  pub category : String
  pub label : Option String
  pub is_turret : Bool

module _ (W : Type 0) where
  pub record Player : Type 0 where
    pub id : ℕ
    pub server_id : ℕ
    pub platform_id : String
    pub character_name : Option String
    pub level : Option ℤ
    pub x : Option W
    pub y : Option W
    pub z : Option W
    pub last_seen_at : Option ℕ
    pub updated_at : Option ℕ
    pub last_updated_by_account_id : Option ℕ

  pub record ArkStructure : Type 0 where
    pub id : ℕ
    pub server_id : ℕ
    pub object_hash : String
    pub class_code : String
    pub tribe_id : Option ℕ
    pub x : Option W
    pub y : Option W
    pub z : Option W
    pub health : Option W
    pub first_seen_at : ℕ
    pub last_seen_at : ℕ
    pub updated_at : Option ℕ
    pub last_updated_by_account_id : Option ℕ

  pub record ArkStructureTurret : Type 0 where
    pub structure_id : ℕ
    pub ammo_count : Option ℤ
    pub range : Option W
    pub is_active : Option Bool

  pub record TamedDino : Type 0 where
    pub id : ℕ
    pub server_id : ℕ
    pub tribe_id : Option ℕ
    pub species_id : ℕ
    pub object_hash : Option String
    pub x : Option W
    pub y : Option W
    pub z : Option W
    pub last_seen_at : Option ℕ
    pub updated_at : Option ℕ
    pub last_updated_by_account_id : Option ℕ

pub record DinoDensity : Type 0 where
  pub id : ℕ
  pub server_id : ℕ
  pub tribe_id : ℕ
  pub cell_size_units : ℕ
  pub cell_x : ℤ
  pub cell_y : ℤ
  pub bucket_start : ℕ
  pub count_max : ℕ
  pub count_last : ℕ
  pub observed_at : ℕ
  pub reported_by_account_id : Option ℕ

-- The tables that the observations are written to, with the accounts that may have reported them.
pub record World (W : Type 0) : Type 0 where
  pub accounts : List Account
  pub servers : List Server
  pub persons : List Person
  pub tribes : List Tribe
  pub species : List Species
  pub structure_classes : List StructureClass
  pub players : List (Player W)
  pub structures : List (ArkStructure W)
  pub turrets : List (ArkStructureTurret W)
  pub dinos : List (TamedDino W)
  pub densities : List DinoDensity
