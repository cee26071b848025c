-- ===== src/Secrets.antt =====
-- Passwords and opaque tokens: backend_python/src/core/passwords.py and core/tokens.py.
-- argon2 and HMAC are not in the repository: they are the fields of `Hashing`. The salt that argon2
-- draws is an argument of `hash`. `IsSound` is what argon2 documents: a hash verifies its input.
use Prim.Native.String.{◌++◌}
use ark_esp_backend.Prelude.{String, ◌≡◌, Bool, true, false}

pub data Verdict : Type 0 where
  matches : Verdict
  mismatch invalid_hash : Verdict

pub record Hashing : Type 0 where
  pub hmac : String → String → String
  pub hash : String → String → String
  pub verify : String → String → Verdict
  pub pepper : String

pub record IsSound (h : Hashing) : Type 0 where
  pub verifies : (salt digest : String) → h.verify (h.hash salt digest) digest ≡ matches

module _ (h : Hashing) where
  -- `_pepper`
  unfoldable pub peppered : String → String
  peppered password = h.hmac h.pepper password

  unfoldable pub hash_password : String → String → String
  unfolding peppered
  hash_password salt password = h.hash salt (peppered password)

  -- A mismatch and an unreadable hash are caught: both are "no".
  abbrev accepted : Verdict → Bool
  accepted matches = true
  accepted mismatch = false
  accepted invalid_hash = false

  unfoldable pub verify_password : String → String → Bool
  unfolding peppered
  verify_password password password_hash = accepted (h.verify password_hash (peppered password))

  unfoldable pub hash_token : String → String
  hash_token token = h.hmac h.pepper ("opaque_token:" ++ token)

  pub verify_password-hash_password :
      IsSound h
      → (salt password : String) → verify_password password (hash_password salt password) ≡ true
  unfolding verify_password hash_password
  verify_password-hash_password sound salt password = rw (sound.verifies salt (peppered password))
