-- ===== src/Accounts/Tests.antt =====
-- Runs of the registration, the password reset and the keys, and their theorems at concrete inputs.
use ark_esp_backend.Prelude.{
  ◌≡◌, ◌⊎◌, refl, true, none, some, List, [], ◌∷◌, ok, err, if◌then◌else◌, str_eq, eq_refl,
}
use ark_esp_backend.Prelude.Int.{pos}
use ark_esp_backend.Models.{
  AccountStatus, Account, ActivationKeyStatus, ActivationKey, AccountPasswordResetToken, Db,
}
use ark_esp_backend.Secrets.{Hashing, IsSound, Verdict, verify_password, hash_token}
use ark_esp_backend.Auth.Login.{authenticate_account, note_success}
use ark_esp_backend.Accounts.Repo
use ark_esp_backend.Accounts.Repo.{get_account}
use ark_esp_backend.Accounts.Register.{
  AccountError, invalid_activation_key, redeem, register_account,
}
use ark_esp_backend.Accounts.Register.Laws.{
  key_row, row, registered, IsReason, IsRegistration, register_account_atomic,
  activation_key_works_once, registered_logs_in,
}
use ark_esp_backend.Accounts.Reset.{
  confirm_reset, invalid_reset_token, reset_token_works_once, confirm_reset_unlocks,
}
use ark_esp_backend.Accounts.Activation.{ActivationKeyUpdate}
use ark_esp_backend.Accounts.Activation.Records.{IsRecorded}
use ark_esp_backend.Accounts.Activation.Audit.{KeyRequest, answer_all, redemption_is_never_lost}

abbrev plain : Hashing
plain = record {
  hmac = λ key message. message;
  hash = λ salt digest. digest;
  verify = λ password_hash digest.
      if str_eq password_hash digest then Verdict.matches else Verdict.mismatch;
  pepper = "pepper";
}

plain-IsSound : IsSound plain
plain-IsSound = record { verifies = λ salt digest. rw eq_refl refl }

abbrev issued_key : ActivationKey
issued_key = record {
  id = 5;
  token_hash = "opaque_token:gift";
  duration = pos 100;
  origin_code = "gift";
  status_code = ActivationKeyStatus.issued;
  redeemed_at = none;
  redeemed_by_account_id = none;
  tg_user_id = none;
  created_at = 0;
}

abbrev ann : Account
ann = record {
  id = 1;
  login = "ann";
  password_hash = "old";
  expires_at = none;
  status_code = AccountStatus.active;
  deleted_at = none;
  created_at = 0;
  last_login_at = none;
  failed_attempts = 5;
  locked_until = some 1000;
  active_group_id = none;
}

abbrev reset_row : AccountPasswordResetToken
reset_row = record {
  id = 9;
  account_id = 1;
  token_hash = "opaque_token:reset";
  created_by_admin_id = 3;
  expires_at = 500;
  used_at = none;
  created_at = 0;
}

abbrev tables : Db
tables = record {
  accounts = ann ∷ [];
  groups = [];
  members = [];
  invites = [];
  activation_keys = issued_key ∷ [];
  api_keys = [];
  reset_tokens = reset_row ∷ [];
  admins = [];
}

abbrev after_registration : Db
after_registration = registered plain 2 50 "salt" "bob" "secret" "gift" tables issued_key

abbrev bob : Account
bob = row plain 2 50 "salt" "bob" "secret" "gift" tables issued_key

bob_registers :
    register_account plain 2 50 "salt" "bob" "secret" "gift" tables ≡ (ok bob, after_registration)
unfolding register_account Repo.insert hash_token redeem
bob_registers = refl

register_account_atomic_example :
    ((e : AccountError) × (register_account plain 2 50 "salt" "bob" "secret" "gift" tables
        ≡ (err e, tables))
      × IsReason plain 2 50 "salt" "bob" "secret" "gift" tables e)
    ⊎ ((key : ActivationKey) × (r : Account) × (db' : Db) × (key_row plain 2 50 "salt" "bob"
            "secret" "gift" tables tables
          ≡ some key)
        × (key.status_code ≡ ActivationKeyStatus.issued)
        × (register_account plain 2 50 "salt" "bob" "secret" "gift" tables ≡ (ok r, db'))
        × IsRegistration plain 2 50 "salt" "bob" "secret" "gift" tables key r db')
register_account_atomic_example =
    register_account_atomic plain 2 50 "salt" "bob" "secret" "gift" tables

activation_key_works_once_example :
    register_account plain 3 60 "salt" "eve" "other" "gift" after_registration
    ≡ (err invalid_activation_key, after_registration)
activation_key_works_once_example =
    activation_key_works_once plain 2 50 "salt" "bob" "secret" "gift" tables after_registration
      bob_registers 3 60 "salt" "eve" "other"

registered_logs_in_example :
    (authenticate_account plain "bob" "secret" 70 after_registration).0 ≡ ok (note_success 70 bob)
registered_logs_in_example =
    registered_logs_in plain 2 50 "salt" "bob" "secret" "gift" tables plain-IsSound
      after_registration bob_registers 70

abbrev after_reset : Db
after_reset = (confirm_reset plain 100 "salt" "reset" "new" tables).1

ann_resets : confirm_reset plain 100 "salt" "reset" "new" tables ≡ (ok 1, after_reset)
unfolding confirm_reset hash_token
ann_resets = refl

reset_token_works_once_example :
    confirm_reset plain 200 "salt" "reset" "newer" after_reset
    ≡ (err invalid_reset_token, after_reset)
reset_token_works_once_example =
    reset_token_works_once plain 100 "salt" "reset" "new" tables after_reset ann_resets 200 "salt"
      "newer"

confirm_reset_unlocks_example :
    (r : Account) × (get_account 1 after_reset ≡ some r)
    × (r.failed_attempts ≡ 0)
    × (r.locked_until ≡ none)
    × (verify_password plain "new" r.password_hash ≡ true)
confirm_reset_unlocks_example =
    confirm_reset_unlocks plain 100 "salt" "reset" "new" tables plain-IsSound after_reset ann_resets

abbrev bobs_key : ActivationKey
bobs_key = redeem 50 2 issued_key

abbrev no_origin : ActivationKeyUpdate
no_origin = record { origin_code = none; tg_user_id = some (some (pos 8)) }

abbrev requests : List KeyRequest
requests =
    KeyRequest.remove 5
    ∷ KeyRequest.change_fields 5 no_origin
    ∷ KeyRequest.register 3 60 "salt" "eve" "other" "gift"
    ∷ []

bobs_key_found : Repo.get_activation_key_by_id 5 after_registration ≡ some bobs_key
unfolding redeem
bobs_key_found = refl

redemption_is_never_lost_example :
    IsRecorded bobs_key (answer_all plain requests after_registration)
unfolding redeem
redemption_is_never_lost_example =
    redemption_is_never_lost plain requests after_registration bobs_key (refl, tt) refl refl
