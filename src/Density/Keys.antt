-- ===== src/Density/Keys.antt =====
-- The key of a room, written and read again.
use Prim.Native.Char.{Char}
use Prim.Native.String.{String, [], ◌∷◌, ◌++◌ as plus}
use Prim.Native.String.append
use ark_esp_backend.Prelude.{
  ℕ, suc, ◌+◌, ◌≡◌, ap, refl, false, some, str_eq, arith, eq_iff, eq_refl, Bool-cases, inl, inr,
}
use ark_esp_backend.Density.Rooms.{
  after_prefix, before_suffix, room_prefix, room_suffix, server_ip_from_room_key,
}

-- the characters of a text; `len` counts bytes
chars : String → ℕ
chars [] = 0
chars (c ∷ s) = suc (chars s)

chars-plus : (s t : String) → chars (plus s t) ≡ chars s + chars t
unfolding chars
chars-plus [] t = rw (append.nil t) (omega arith)
chars-plus (c ∷ s) t = let e = chars-plus s t in rw (append.cons c s t) (omega (arith, e))

after_prefix-plus : (p s : String) → after_prefix p (plus p s) ≡ some s
after_prefix-plus [] s = ap some (append.nil s)
after_prefix-plus (c ∷ p) s = rw (append.cons c p s, eq_refl) (after_prefix-plus p s)

longer : (c : Char) (s t : String) → str_eq (c ∷ plus s t) t ≡ false
unfolding chars
longer c s t = elim (Bool-cases (str_eq (c ∷ plus s t) t)) [
  | inr differs ↦ differs
  | inl same ↦
      let e : suc (chars (plus s t)) ≡ chars t = ap chars ((eq_iff (c ∷ plus s t) t).0 same) in
      let e' = chars-plus s t in absurd (omega (arith, e, e'))
]

before_suffix-plus : (s t : String) → before_suffix t (plus s t) ≡ some s
before_suffix-plus [] [] = rw (append.nil []) refl
before_suffix-plus [] (d ∷ t) = rw (append.nil (d ∷ t), eq_refl) refl
before_suffix-plus (c ∷ s) t = rw (append.cons c s t, longer c s t, before_suffix-plus s t) refl

-- The address of a server is read back from the key that its room has in a group, if it is not empty.
pub room_key_reads_back :
    (group_id server_ip : String)
    → str_eq server_ip "" ≡ false
    → server_ip_from_room_key (plus (room_prefix group_id) (plus server_ip room_suffix)) group_id
      ≡ some server_ip
unfolding server_ip_from_room_key
room_key_reads_back group_id server_ip filled =
    rw
      (
        after_prefix-plus (room_prefix group_id) (plus server_ip room_suffix),
        before_suffix-plus server_ip room_suffix,
        filled,
      )
      refl
