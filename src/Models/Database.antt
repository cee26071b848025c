-- ===== src/Models/Database.antt =====
-- The tables in Postgres, and the keys in Redis that mirror them for ark_relay
-- (backend_python/src/core/group_cache.py, backend_python/src/core/api_key_cache.py).
use ark_esp_backend.Prelude.{ℕ, String, Bool, Option, List}
use ark_esp_backend.Models.Accounts.{Account}
use ark_esp_backend.Models.Admins.{Admin}
use ark_esp_backend.Models.Sharing.{SharingGroup, GroupMember, GroupInviteToken}
use ark_esp_backend.Models.Keys.{ActivationKey, ApiKey, AccountPasswordResetToken}

pub record Db : Type 0 where
  pub accounts : List Account
  pub groups : List SharingGroup
  pub members : List GroupMember
  pub invites : List GroupInviteToken
  pub activation_keys : List ActivationKey
  pub api_keys : List ApiKey
  pub reset_tokens : List AccountPasswordResetToken
  pub admins : List Admin

-- `member g a`: the set ark:group:{g}:members holds a. `active a`: the value of
-- ark:account:{a}:active_group. `revoked`: what was published on ark:group:{g}:revoked, newest first.
-- `token d`: the account and the lifetime under ark:api_key:tok:{d}.
-- `digest k`: the digest under ark:api_key:id:{k}.
pub record Redis : Type 0 where
  pub member : ℕ → ℕ → Bool
  pub active : ℕ → Option ℕ
  pub revoked : List (ℕ × ℕ)
  pub token : String → Option (ℕ × ℕ)
  pub digest : ℕ → Option String

pub record State : Type 0 where
  pub db : Db
  pub redis : Redis
