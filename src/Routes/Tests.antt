-- ===== src/Routes/Tests.antt =====
-- The routes' theorems at concrete inputs.
use Prim.Native.String.{len, ◌++◌}
use text.Mathlib.TextPositions.{len-append}
use ark_esp_backend.Prelude.{
  ℕ, zero, suc, String, ◌≡◌, ap, refl, inr, false, none, some, [], ◌∷◌, arith, ok, err,
  if◌then◌else◌, str_eq, ◌==◌,
}
use ark_esp_backend.Models.{AccountStatus, Account, GroupMember, SharingGroup, State}
use ark_esp_backend.Secrets.{Hashing, Verdict, peppered, verify_password}
use ark_esp_backend.Auth.Login.{authenticate_account, note_success}
use ark_esp_backend.Auth.Bearer.{Tokens, AccountClaims, get_current_account}
use ark_esp_backend.Sharing.Service.{GroupInviteCreate}
use ark_esp_backend.Sharing.View.{is_member}
use ark_esp_backend.Sharing.Repo.{get_member}
use ark_esp_backend.Routes.Http.{problem}
use ark_esp_backend.Routes.Groups.{
  get_group, delete_group_by_id, get_group_members, delete_group_member, post_leave_group,
  post_group_invite, group_not_found,
}
use ark_esp_backend.Routes.Accounts.{post_active_group}
use ark_esp_backend.Routes.Logins.{Signing, LoginResponse, login_account}
use ark_esp_backend.Routes.Access.{outsider_gets_404}
use ark_esp_backend.Routes.Sessions.{Matches, login_token_is_accepted}

abbrev plain : Hashing
plain = record {
  hmac = λ key message. message;
  hash = λ salt digest. digest;
  verify = λ password_hash digest.
      if str_eq password_hash digest then Verdict.matches else Verdict.mismatch;
  pepper = "pepper";
}

abbrev account : ℕ → String → Account
account id login = record {
  id = id;
  login = login;
  password_hash = "right";
  expires_at = none;
  status_code = AccountStatus.active;
  deleted_at = none;
  created_at = 0;
  last_login_at = none;
  failed_attempts = 0;
  locked_until = none;
  active_group_id = none;
}

abbrev base : SharingGroup
base = record { id = 10; name = "base"; owner_account_id = 1; created_at = 0 }

abbrev owner : GroupMember
owner = record { group_id = 10; account_id = 1; role_code = "owner"; joined_at = 0 }

abbrev start : State
start = record {
  db = record {
    accounts = account 1 "ann" ∷ account 3 "eve" ∷ [];
    groups = base ∷ [];
    members = owner ∷ [];
    invites = [];
    activation_keys = [];
    api_keys = [];
    reset_tokens = [];
    admins = [];
  };
  redis = record {
    member = λ g a. if g == 10 then a == 1 else false;
    active = λ a. none;
    revoked = [];
    token = λ d. none;
    digest = λ k. none;
  };
}

-- an id as so many strokes
strokes : ℕ → String
strokes zero = ""
strokes (suc n) = "i" ++ strokes n

len-strokes : (n : ℕ) → len (strokes n) ≡ n
unfolding strokes
len-strokes zero = refl
len-strokes (suc n) = rw (len-append "i" (strokes n), len-strokes n) (omega arith)

abbrev signing : Signing
signing = record {
  encode_account = λ p. p.sub;
  encode_admin = λ p. p.sub;
  show = strokes;
  lifetime = 3600;
}

abbrev reading : Tokens
reading = record {
  decode_account = λ token. some (record { typ = some "account"; sub = some token });
  decode_admin = λ token. none;
  uuid = λ s. some (len s);
}

signing-Matches : Matches signing reading 70
signing-Matches = record {
  decodes = λ now r begun early. refl;
  reads = λ id. ap some (len-strokes id);
}

abbrev invitation : GroupInviteCreate
invitation = record { grants_role_code = "member"; max_uses = none; expires_at = none }

abbrev eve : AccountClaims
eve = record { account_id = 3; login = "eve" }

outsider_gets_404_example :
    (get_group 10 eve start ≡ (err group_not_found, start))
    × (get_group_members 10 eve start ≡ (err group_not_found, start))
    × (post_group_invite (λ t. t) 20 50 "tok" 10 invitation eve start
        ≡ (err group_not_found, start))
    × (post_leave_group 10 eve start ≡ (err group_not_found, start))
    × (delete_group_member 10 1 eve start ≡ (err (problem 404 "member_not_found"), start))
    × (delete_group_by_id 10 eve start ≡ (err group_not_found, start))
    × (post_active_group 10 eve start ≡ (err group_not_found, start))
unfolding is_member get_member
outsider_gets_404_example =
    outsider_gets_404 10 eve start (inr refl) (λ t. t) 20 50 "tok" invitation 1

abbrev response : LoginResponse
response = record { access_token = strokes 3; expires_in = 3600 }

abbrev after : State
after = (login_account signing plain "eve" "right" 50 start).1

eve_logs_in : login_account signing plain "eve" "right" 50 start ≡ (ok response, after)
unfolding login_account authenticate_account verify_password peppered note_success
eve_logs_in = refl

login_token_is_accepted_example :
    (claims : AccountClaims) × (get_current_account plain reading
        (some response.access_token)
        70
        after.db
      ≡ (ok claims, after.db))
    × (claims.login ≡ "eve")
login_token_is_accepted_example =
    login_token_is_accepted plain signing "eve" "right" 50 start reading 70 signing-Matches
      (omega arith) (omega arith) (refl, (refl, tt)) response after eve_logs_in
