-- ===== src/Sharing/Tests.antt =====
-- Runs of the sharing service, and its theorems at concrete inputs.
use ark_esp_backend.Prelude.{
  ℕ, String, ◌≡◌, ◌≢◌, ◌⊎◌, inl, inr, refl, true, false, none, some, List, [], ◌∷◌, arith, err,
}
use ark_esp_backend.Prelude.Int.{pos}
use ark_esp_backend.Models.{AccountStatus, Account, GroupInviteToken, InviteStatus, State}
use ark_esp_backend.Sharing.Repo
use ark_esp_backend.Sharing.Repo.{
  get_by_id, get_member, get_group_by_id, get_invite_by_token_hash_for_update,
}
use ark_esp_backend.Sharing.Cache
use ark_esp_backend.Sharing.Service
use ark_esp_backend.Sharing.Service.{
  GroupInviteCreate, SharingError, not_found, forbidden, owner_cannot_leave, set_active,
  clear_active, clear_active_if_matches, get_group_for_member, require_owner, is_unusable,
  count_use, join_admit, join_count, join_share, join_group, clear_all,
}
use ark_esp_backend.Sharing.View.{is_member, active_group}
use ark_esp_backend.Sharing.Mirror.{Mirrors}
use ark_esp_backend.Sharing.Validity.{IsValid, owner_of, has_group}
use ark_esp_backend.Sharing.Requests.{
  Request, serve, serve-IsValid, serve-Mirrors, relay_shares_into_own_group,
}
use ark_esp_backend.Sharing.Access.{
  outsider_learns_nothing, member_may_not_manage, owner_stays, Expelled, remove_member_expels,
}
use ark_esp_backend.Sharing.Invites.{IsBounded}
use ark_esp_backend.Sharing.Invites.Methods.{serve-IsBounded}
use ark_esp_backend.Sharing.Invites.Race.{MayJoin, overlapping_joins, overlapping_joins_exceed}

abbrev account : ℕ → String → Account
account id login = record {
  id = id;
  login = login;
  password_hash = "";
  expires_at = none;
  status_code = AccountStatus.active;
  deleted_at = none;
  created_at = 0;
  last_login_at = none;
  failed_attempts = 0;
  locked_until = none;
  active_group_id = none;
}

abbrev start : State
start = record {
  db = record {
    accounts = account 1 "ann" ∷ account 2 "bob" ∷ account 3 "eve" ∷ [];
    groups = [];
    members = [];
    invites = [];
    activation_keys = [];
    api_keys = [];
    reset_tokens = [];
    admins = [];
  };
  redis = record {
    member = λ g a. false;
    active = λ a. none;
    revoked = [];
    token = λ d. none;
    digest = λ k. none;
  };
}

abbrev plain : String → String
plain token = token

-- The invitation serves once.
abbrev single_use : GroupInviteCreate
single_use = record { grants_role_code = "member"; max_uses = some (pos 1); expires_at = none }

abbrev opening : List Request
opening =
    Request.create_group 10 100 1 "base" ∷ Request.create_invite 20 101 "tok" 10 1 single_use ∷ []

abbrev traffic : List Request
traffic =
    Request.create_group 10 100 1 "base"
    ∷ Request.create_invite 20 101 "tok" 10 1 single_use
    ∷ Request.join_group 102 2 "tok"
    ∷ Request.join_group 103 3 "tok"
    ∷ Request.leave_group 10 1
    ∷ []

opened : State
unfolding serve Service.create_group Repo.insert_group Repo.insert_member Cache.add_member
    set_active Cache.set_active_group Service.create_invite require_owner get_group_for_member
    Repo.insert_invite
opened = serve plain true opening start

joined_state : State
unfolding opened is_unusable Service.join_group join_admit join_count join_share count_use
    Service.leave_group
joined_state = serve plain true traffic start

-- The second join finds the invitation used up, and the owner cannot leave.
traffic_members :
    (Repo.list_members 10 joined_state.db
      ≡ record { group_id = 10; account_id = 1; role_code = "owner"; joined_at = 100 }
        ∷ record { group_id = 10; account_id = 2; role_code = "member"; joined_at = 102 }
        ∷ [])
    × (joined_state.redis.active 2 ≡ some 10)
    × (joined_state.redis.active 3 ≡ none)
unfolding joined_state Repo.list_members
traffic_members = (refl, refl, refl)

start-IsValid : IsValid start.db
unfolding owner_of has_group get_group_by_id is_member get_member active_group get_by_id
start-IsValid = record {
  owner = λ g a e. ground arith;
  active = λ a g e. ground arith;
  grouped = λ g a e. ground arith;
  unique = (refl, (refl, (refl, tt)));
}

start-Mirrors : Mirrors start
unfolding is_member get_member active_group get_by_id
start-Mirrors = record { member = λ g a. refl; active = λ a. ground arith }

serve-IsValid_example : IsValid (serve plain false traffic start).db
serve-IsValid_example = serve-IsValid plain false traffic start start-IsValid

serve-Mirrors_example : Mirrors (serve plain true traffic start)
serve-Mirrors_example = serve-Mirrors plain traffic start start-IsValid start-Mirrors

relay_shares_into_own_group_example : (serve plain true traffic start).redis.member 10 2 ≡ true
unfolding joined_state
relay_shares_into_own_group_example =
    relay_shares_into_own_group plain traffic start start-IsValid start-Mirrors 2 10 refl

serve-IsBounded_example : IsBounded (serve plain true traffic start).db.invites
serve-IsBounded_example = serve-IsBounded plain true traffic start tt

outsider_learns_nothing_example :
    (Service.list_members 10 3 opened ≡ (err not_found, opened))
    × (Service.create_invite plain 21 5 "t" 10 3 single_use opened ≡ (err not_found, opened))
    × (Service.leave_group 10 3 true opened ≡ (err not_found, opened))
    × (Service.remove_member 10 3 1 true opened ≡ (err not_found, opened))
    × (Service.delete_group 10 3 true opened ≡ (err not_found, opened))
    × (Service.set_active_group 3 10 true opened ≡ (err not_found, opened))
unfolding opened is_member get_member
outsider_learns_nothing_example =
    outsider_learns_nothing 10 3 opened (inr refl) plain 21 5 "t" single_use 1 true

member_may_not_manage_example :
    (Service.create_invite plain 21 5 "t" 10 2 single_use joined_state
      ≡ (err forbidden, joined_state))
    × (Service.remove_member 10 2 1 true joined_state ≡ (err forbidden, joined_state))
    × (Service.delete_group 10 2 true joined_state ≡ (err forbidden, joined_state))
unfolding joined_state is_member get_member owner_of get_group_by_id
member_may_not_manage_example =
    member_may_not_manage 10 2 joined_state 1 refl (omega arith) refl plain 21 5 "t" single_use 1
      true

owner_stays_example :
    (Service.leave_group 10 1 true opened ≡ (err owner_cannot_leave, opened))
    × (Service.remove_member 10 1 1 true opened ≡ (err forbidden, opened))
unfolding opened is_member get_member owner_of get_group_by_id
owner_stays_example = owner_stays 10 1 opened refl refl true

remove_member_expels_example :
    (owner_of 10 joined_state.db ≡ some 1)
    × ◌≢◌ {A = ℕ} 2 1
    × Expelled 10 2 joined_state (Service.remove_member 10 1 2 true joined_state).1
unfolding joined_state Service.remove_member clear_active_if_matches clear_active Repo.delete_member
    Cache.remove_member Cache.clear_active_group
remove_member_expels_example = remove_member_expels 10 1 2 joined_state refl

abbrev invitation : GroupInviteToken
invitation = record {
  id = 20;
  group_id = 10;
  token_hash = "tok";
  created_by_account_id = 1;
  grants_role_code = "member";
  max_uses = some (pos 1);
  uses_count = 0;
  status_code = InviteStatus.active;
  expires_at = none;
  created_at = 101;
}

may_join : (a : ℕ) → (a ≡ 2) ⊎ (a ≡ 3) → MayJoin plain 102 a "tok" invitation opened.db
unfolding opened is_unusable is_member get_member has_group get_group_by_id get_by_id
    get_invite_by_token_hash_for_update
may_join a h = record {
  found = refl;
  usable = refl;
  outside = ground arith;
  group = refl;
  account = ground arith;
  role = refl;
}

overlapping_joins_exceed_example :
    let s' = overlapping_joins plain 102 2 3 "tok" true opened in
    (is_member 10 2 s'.db ≡ true)
    × (is_member 10 3 s'.db ≡ true)
    × ((j : GroupInviteToken) × (get_invite_by_token_hash_for_update "tok" s'.db ≡ some j)
        × (j.max_uses ≡ some (pos 1))
        × (j.uses_count ≡ 2))
overlapping_joins_exceed_example =
    overlapping_joins_exceed plain 102 2 3 "tok" invitation true opened (omega arith)
      (may_join 2 (inl refl)) (may_join 3 (inr refl)) refl
