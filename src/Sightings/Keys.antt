-- ===== src/Sightings/Keys.antt =====
-- The key of a row that belongs to a server: the server's id and a text.
use ark_esp_backend.Prelude.{
  ℕ, String, ◌≡◌, refl, true, false, ◌&&◌, ◌==◌, str_eq, and_true, ==_iff, ==_refl, eq_iff, eq_refl,
}

module _ (m n : ℕ) (u v : String) where
  pub key_eq : (m == n && str_eq u v) ≡ true → (m ≡ n) × (u ≡ v)
  key_eq h = let (a, b) = and_true (m == n) (str_eq u v) h in ((==_iff m n).0 a, (eq_iff u v).0 b)

pub key_refl : (m : ℕ) (u : String) → (m == m && str_eq u u) ≡ true
key_refl m u = rw (==_refl m, eq_refl) refl

-- A row with one key has another exactly where the two keys agree.
pub key_apart :
    (m n k : ℕ) (u v t : String)
    → (m == n && str_eq u v) ≡ true
    → (n == k && str_eq v t) ≡ false
    → (m == k && str_eq u t) ≡ false
key_apart m n k u v t h e = let (a, b) = key_eq m n u v h in rw (a, b) e
