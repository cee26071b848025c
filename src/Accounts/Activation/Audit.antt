-- ===== src/Accounts/Activation/Audit.antt =====
-- The record of who redeemed a key outlives whatever is asked of the service afterwards.
use ark_esp_backend.Prelude.{
  ℕ, String, ◌≡◌, refl, inl, inr, true, false, some, List, [], ◌∷◌, ◌==◌, arith, Bool-cases,
  Option-cases, str_eq,
}
use ark_esp_backend.Prelude.Unique.{find_by_key}
use ark_esp_backend.Models.{ActivationKey, Db}
use ark_esp_backend.Secrets.{Hashing, hash_token}
use ark_esp_backend.Accounts.Repo.{get_activation_key_by_id}
use ark_esp_backend.Accounts.Register.{is_issued, redeem, register_account}
use ark_esp_backend.Accounts.Register.Laws.{register_account-cases}
use ark_esp_backend.Accounts.Activation.{
  ActivationKeyCreate, ActivationKeyUpdate, refuses_origin, assign_fields, new_key,
  create_activation_key, update_activation_key, delete_activation_key,
}
use ark_esp_backend.Accounts.Activation.Records.{
  key_id, HasUniqueIds, IsRecorded, Keeps, insert_activation_key-cases, unchanged, Keeps-insert,
  carry, Keeps-update, Keeps-delete,
}

-- the calls that write activation keys, with what they draw: ids, times, the salt and the token
pub data KeyRequest : Type 0 where
  create : (id now : ℕ) → String → ActivationKeyCreate → KeyRequest
  change_fields : ℕ → ActivationKeyUpdate → KeyRequest
  remove : ℕ → KeyRequest
  register : (id now : ℕ) → (salt login password activation_key : String) → KeyRequest

module _ (h : Hashing) where
  abbrev pub answer : KeyRequest → Db → Db
  answer (create id now token fields) db = (create_activation_key h id now token fields db).1
  answer (change_fields id fields) db = (update_activation_key id fields db).1
  answer (remove id) db = (delete_activation_key id db).1
  answer (register id now salt login password activation_key) db =
      (register_account h id now salt login password activation_key db).1

  abbrev pub answer_all : List KeyRequest → Db → Db
  answer_all [] db = db
  answer_all (r ∷ rs) db = answer_all rs (answer r db)

module _ (h : Hashing) (db : Db) where
  Keeps-create :
      (id now : ℕ) (token : String) (fields : ActivationKeyCreate)
      → Keeps db (create_activation_key h id now token fields db).1
  unfolding create_activation_key
  Keeps-create id now token fields =
      elim (insert_activation_key-cases (new_key h id now token fields) db) [
        | inl refused ↦ unchanged db _ (rw refused refl)
        | inr (fresh, inserted) ↦
            rw inserted (Keeps-insert (new_key h id now token fields) db fresh)
      ]

  Keeps-update_activation_key :
      (id : ℕ) (fields : ActivationKeyUpdate) → Keeps db (update_activation_key id fields db).1
  unfolding update_activation_key
  Keeps-update_activation_key id fields = elim (Option-cases (get_activation_key_by_id id db)) [
    | inl absent ↦ unchanged db _ (rw absent refl)
    | inr (key, found) ↦ elim (Bool-cases (refuses_origin fields.origin_code)) [
      | inl refused ↦ unchanged db _ (rw (found, refused) refl)
      | inr fine ↦
          rw (found, fine)
            (Keeps-update (λ r. r.id == key.id) (assign_fields fields) db
              (λ x. unfold assign_fields in refl)
              (λ x own hit spent. unfold assign_fields in (refl, refl, refl, refl, refl)))
    ]
  ]

  Keeps-delete_activation_key : (id : ℕ) → Keeps db (delete_activation_key id db).1
  unfolding delete_activation_key
  Keeps-delete_activation_key id u = elim (Option-cases (get_activation_key_by_id id db)) [
    | inl absent ↦ unchanged db _ (rw absent refl) u
    | inr (key, found) ↦ elim (Bool-cases (is_issued key.status_code)) [
      | inr spent ↦ unchanged db _ (rw (found, spent) refl) u
      | inl issued ↦
          let own = find_by_key key_id (λ r. r.id == id) db.activation_keys key u found in
          rw (found, issued) (Keeps-delete key db own issued u)
    ]
  ]

  Keeps-register :
      (id now : ℕ) (salt login password activation_key : String)
      → Keeps db (register_account h id now salt login password activation_key db).1
  Keeps-register id now salt login password activation_key u =
      elim (register_account-cases h id now salt login password activation_key db) [
        | inl f ↦ unchanged db _ (rw f.outcome refl) u
        | inr r ↦
            let key = r.key in
            let by_hash =
              λ (r : ActivationKey). str_eq r.token_hash (hash_token h activation_key) in
            let own = find_by_key key_id by_hash db.activation_keys key u r.found in
            let kept =
              Keeps-update (λ r. r.id == key.id) (redeem now id) db (λ x. unfold redeem in refl)
                (λ x here hit spent. absurd (issued_or_spent key own r.issued x here hit spent))
                u in
            rw r.outcome (
              kept.0,
              λ k s. let r' = kept.1 k s in carry r' r'.row (refl, refl, refl, refl, refl) r'.found,
            )
      ]
    where
      issued_or_spent :
          (key : ActivationKey)
          → get_activation_key_by_id key.id db ≡ some key
          → is_issued key.status_code ≡ true
          → (x : ActivationKey) → get_activation_key_by_id x.id db ≡ some x
          → (x.id == key.id) ≡ true
          → is_issued x.status_code ≡ false
          → ⊥
      issued_or_spent key own issued x here hit spent = ground arith

  Keeps-answer : (r : KeyRequest) → Keeps db (answer h r db)
  Keeps-answer (create id now token fields) = Keeps-create id now token fields
  Keeps-answer (change_fields id fields) = Keeps-update_activation_key id fields
  Keeps-answer (remove id) = Keeps-delete_activation_key id
  Keeps-answer (register id now salt login password activation_key) =
      Keeps-register id now salt login password activation_key

module _ (h : Hashing) where
  -- Where ids of activation keys are unique and a key is redeemed, whatever keys are created, edited
  -- or deleted and whoever registers afterwards, failing or not, the key stands in the table: redeemed
  -- by the same account, at the same time, with the same hash and duration.
  pub redemption_is_never_lost :
      (requests : List KeyRequest) (db : Db) (key : ActivationKey)
      → HasUniqueIds db
      → get_activation_key_by_id key.id db ≡ some key
      → is_issued key.status_code ≡ false
      → IsRecorded key (answer_all h requests db)
  redemption_is_never_lost requests db key u found spent = stays requests db u (record {
    row = key;
    found = found;
    spent = spent;
    account = refl;
    time = refl;
    token = refl;
    duration = refl;
  })
    where
      stays :
          (requests : List KeyRequest) (db : Db)
          → HasUniqueIds db
          → IsRecorded key db
          → IsRecorded key (answer_all h requests db)
      stays [] db u r = r
      stays (q ∷ qs) db u r =
          let (u', after) = Keeps-answer h db q u in stays qs (answer h q db) u' (after key r)
