-- ===== src/Accounts/Activation/Records.antt =====
-- The record of a redemption in the table of activation keys, and the writes that keep it.
use ark_esp_backend.Prelude.{
  ℕ, ◌≡◌, refl, ◌∙◌, ap, ◌⊎◌, inl, inr, Bool, true, false, none, some, ◌∷◌, ◌==◌, arith, Bool-cases,
  Option-cases,
}
use ark_esp_backend.Prelude.Table.{update, find-update, change, find-delete_other}
use ark_esp_backend.Prelude.Unique.{
  HasUniqueKeys, HasUniqueKeys-update, HasUniqueKeys-delete, find_by_key,
}
use ark_esp_backend.Models.{ActivationKey, Db}
use ark_esp_backend.Accounts.Repo.{
  insert_activation_key, get_activation_key_by_id, delete_activation_key_row,
}
use ark_esp_backend.Accounts.Register.{is_issued}

abbrev pub key_id : ActivationKey → ℕ
key_id r = r.id

abbrev pub HasUniqueIds : Db → Type 0
HasUniqueIds db = HasUniqueKeys key_id db.activation_keys

-- The key stands in the table: redeemed, by that account, at that time, under its hash and duration.
pub record IsRecorded (key : ActivationKey) (db : Db) : Type 0 where
  pub row : ActivationKey
  pub found : get_activation_key_by_id key.id db ≡ some row
  pub spent : is_issued row.status_code ≡ false
  pub account : row.redeemed_by_account_id ≡ key.redeemed_by_account_id
  pub time : row.redeemed_at ≡ key.redeemed_at
  pub token : row.token_hash ≡ key.token_hash
  pub duration : row.duration ≡ key.duration

pub insert_activation_key-cases :
    (r : ActivationKey) (db : Db)
    → (insert_activation_key r db ≡ none)
      ⊎ ((get_activation_key_by_id r.id db ≡ none)
          × (insert_activation_key r db
              ≡ some (record db { activation_keys = r ∷ db.activation_keys })))
unfolding insert_activation_key
insert_activation_key-cases r db = elim (Option-cases (get_activation_key_by_id r.id db)) [
  | inr (x, e) ↦ inl (rw e refl)
  | inl fresh ↦ elim (Option-cases (insert_activation_key r db)) [
    | inl refused ↦ inl refused
    | inr (after, e) ↦ inr (fresh, ground arith)
  ]
]

-- What both invariants ask of a write to the table.
abbrev pub Keeps : Db → Db → Type 0
Keeps before after =
    HasUniqueIds before
    → HasUniqueIds after × ((key : ActivationKey) → IsRecorded key before → IsRecorded key after)

pub unchanged : (db after : Db) → after ≡ db → Keeps db after
unchanged db after e u = rw e (u, λ key r. r)

pub Keeps-insert :
    (r : ActivationKey) (db : Db)
    → get_activation_key_by_id r.id db ≡ none
    → Keeps db (record db { activation_keys = r ∷ db.activation_keys })
Keeps-insert r db fresh u = (
  (fresh, u),
  λ key rec. record {
    row = rec.row;
    found = elim (Bool-cases (r.id == key.id)) [
      | inr other ↦ rw other rec.found
      | inl same ↦ ground (arith, fresh, rec.found)
    ];
    spent = rec.spent;
    account = rec.account;
    time = rec.time;
    token = rec.token;
    duration = rec.duration;
  },
)

-- `y` says the same of the redemption as `x`.
abbrev Agrees : ActivationKey → ActivationKey → Type 0
Agrees x y =
    (is_issued y.status_code ≡ is_issued x.status_code)
    × (y.redeemed_by_account_id ≡ x.redeemed_by_account_id)
    × (y.redeemed_at ≡ x.redeemed_at)
    × (y.token_hash ≡ x.token_hash)
    × (y.duration ≡ x.duration)

pub carry :
    {key : ActivationKey} {db after : Db} (r : IsRecorded key db) (y : ActivationKey)
    → Agrees r.row y
    → get_activation_key_by_id key.id after ≡ some y
    → IsRecorded key after
carry r y (spent, account, time, token, duration) found = record {
  row = y;
  found = found;
  spent = spent ∙ r.spent;
  account = account ∙ r.account;
  time = time ∙ r.time;
  token = token ∙ r.token;
  duration = duration ∙ r.duration;
}

-- An UPDATE keeps the record if it leaves ids alone and, of spent keys, what the record says.
pub Keeps-update :
    (p : ActivationKey → Bool) (f : ActivationKey → ActivationKey) (db : Db)
    → ((x : ActivationKey) → (f x).id ≡ x.id)
    → ((x : ActivationKey)
        → get_activation_key_by_id x.id db ≡ some x
        → p x ≡ true
        → is_issued x.status_code ≡ false
        → Agrees x (f x))
    → Keeps db (record db { activation_keys = update p f db.activation_keys })
Keeps-update p f db ids agrees u = (
  HasUniqueKeys-update key_id p f db.activation_keys ids u,
  λ key r.
      let at_key = λ (x : ActivationKey). x.id == key.id in
      let after =
        find-update at_key p f db.activation_keys (λ x. rw (ids x) refl)
        ∙ ap (change p f) r.found in
      elim (Bool-cases (p r.row)) [
        | inl hit ↦
            carry r (f r.row)
              (agrees r.row (find_by_key key_id at_key db.activation_keys r.row u r.found) hit
                r.spent)
              (rw hit at after)
        | inr miss ↦ carry r r.row (refl, refl, refl, refl, refl) (rw miss at after)
      ],
)

pub Keeps-delete :
    (key : ActivationKey) (db : Db)
    → get_activation_key_by_id key.id db ≡ some key
    → is_issued key.status_code ≡ true
    → Keeps db (delete_activation_key_row key db)
Keeps-delete gone db found issued u = (
  HasUniqueKeys-delete key_id (λ r. r.id == gone.id) db.activation_keys u,
  λ key r. elim (Bool-cases (key.id == gone.id)) [
    | inl same ↦ absurd (spent_is_kept key r same)
    | inr other ↦
        carry r r.row (refl, refl, refl, refl, refl)
          (find-delete_other (λ x. x.id == key.id) (λ x. x.id == gone.id) db.activation_keys
              (λ x hit. ground arith)
            ∙ r.found)
  ],
)
  where
    spent_is_kept : (key : ActivationKey) (r : IsRecorded key db) → (key.id == gone.id) ≡ true → ⊥
    spent_is_kept key r same = ground (arith, r.found, r.spent)
