-- ===== src/Snapshots/Hashes.antt =====
-- Redis hashes: HGETALL, HSET, HSETNX and EXPIRE. That time takes a hash away is not modelled.
use ark_esp_backend.Prelude.{
  ℕ, String, ◌≡◌, refl, ap, ◌∙◌, true, Option, none, some, List, [], ◌∷◌, str_eq, if◌then◌else◌,
  is_some, arith, Bool-cases, inl, inr, eq_refl, eq_iff,
}
use ark_esp_backend.Stream.Consumer.{StreamFields}
use ark_esp_backend.Sightings.Fields.{get}

pub record Hash : Type 0 where
  pub key : String
  pub fields : StreamFields
  pub ttl_seconds : Option ℕ

abbrev pub set_field : String → String → StreamFields → StreamFields
set_field name value [] = (name, value) ∷ []
set_field name value ((n, v) ∷ rest) =
    let rest' = set_field name value rest in
    if str_eq n name then (n, value) ∷ rest else (n, v) ∷ rest'

abbrev pub set_fields : StreamFields → StreamFields → StreamFields
set_fields [] fields = fields
set_fields ((n, v) ∷ mapping) fields = set_fields mapping (set_field n v fields)

abbrev pub hgetall : String → List Hash → StreamFields
hgetall key [] = []
hgetall key (h ∷ rest) = if str_eq h.key key then h.fields else hgetall key rest

-- the hash of a key is changed, or made
abbrev pub change_hash : String → (Hash → Hash) → List Hash → List Hash
change_hash key f [] = f (record { key = key; fields = []; ttl_seconds = none }) ∷ []
change_hash key f (h ∷ rest) =
    let rest' = change_hash key f rest in if str_eq h.key key then f h ∷ rest else h ∷ rest'

abbrev pub hset : String → StreamFields → List Hash → List Hash
hset key mapping = change_hash key λ h. record h { fields = set_fields mapping h.fields }

abbrev pub hsetnx : String → String → String → List Hash → List Hash
hsetnx key name value = change_hash key λ h. record h {
  fields = if is_some (get name h.fields) then h.fields else set_field name value h.fields;
}

abbrev pub expire : String → ℕ → List Hash → List Hash
expire key seconds = change_hash key λ h. record h { ttl_seconds = some seconds }

pub get-set_field :
    (m name value : String) (fields : StreamFields)
    → get m (set_field name value fields) ≡ (if str_eq name m then some value else get m fields)
get-set_field m name value [] = refl
get-set_field m name value ((n, v) ∷ rest) =
    let later = get-set_field m name value rest in
    elim (Bool-cases (str_eq n name)) [
      | inl here ↦
          let e : n ≡ name = (eq_iff n name).0 here in
          let agree : str_eq name m ≡ str_eq n m = rw e refl in
          elim (Bool-cases (str_eq n m)) [
            | inl hit ↦ rw (here, agree, hit) refl
            | inr miss ↦ rw (here, agree, miss) refl
          ]
      | inr there ↦ elim (Bool-cases (str_eq n m)) [
        | inr miss ↦ rw (there, miss) later
        | inl hit ↦ elim (Bool-cases (str_eq name m)) [
          | inr other ↦ rw (there, hit, other) refl
          | inl both ↦
              let e : name ≡ m = (eq_iff name m).0 both in
              let clash : str_eq n name ≡ true = rw e hit in absurd (ground (arith, there, clash))
        ]
      ]
    ]

-- what a field holds after a mapping was written over `before`
abbrev pub final : String → StreamFields → Option String → Option String
final m [] before = before
final m ((n, v) ∷ mapping) before = final m mapping (if str_eq n m then some v else before)

pub get-set_fields :
    (m : String) (mapping fields : StreamFields)
    → get m (set_fields mapping fields) ≡ final m mapping (get m fields)
get-set_fields m [] fields = refl
get-set_fields m ((n, v) ∷ mapping) fields =
    get-set_fields m mapping (set_field n v fields)
    ∙ ap (final m mapping) (get-set_field m n v fields)

pub hgetall-change_hash :
    (key : String) (f : Hash → Hash) (hashes : List Hash)
    → ((h : Hash) → (f h).key ≡ h.key)
    → (g : StreamFields → StreamFields) → ((h : Hash) → (f h).fields ≡ g h.fields)
    → hgetall key (change_hash key f hashes) ≡ g (hgetall key hashes)
hgetall-change_hash key f [] keeps g does =
    rw
      (
        keeps (record { key = key; fields = []; ttl_seconds = none }),
        eq_refl,
        does (record { key = key; fields = []; ttl_seconds = none }),
      )
      refl
hgetall-change_hash key f (h ∷ rest) keeps g does = elim (Bool-cases (str_eq h.key key)) [
  | inl here ↦ rw (here, keeps h, here, does h) refl
  | inr there ↦ rw (there, there) (hgetall-change_hash key f rest keeps g does)
]
