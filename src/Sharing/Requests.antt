-- ===== src/Sharing/Requests.antt =====
-- Requests to the sharing service in any order, each of which may fail.
use ark_esp_backend.Prelude.{
  ℕ, String, ◌≡◌, ◌∙◌, sym, ◌⊎◌, inl, inr, Bool, true, none, some, List, [], ◌∷◌, arith,
  Option-cases,
}
use ark_esp_backend.Models.{InviteStatus, GroupInviteToken, State, Db}
use ark_esp_backend.Sharing.Repo
use ark_esp_backend.Sharing.Service
use ark_esp_backend.Sharing.Service.{GroupInviteCreate}
use ark_esp_backend.Sharing.View.{is_member-invites, active_group-invites}
use ark_esp_backend.Sharing.Mirror.{Mirrors, require_owner-cases}
use ark_esp_backend.Sharing.Mirror.Methods.{
  create_group-Mirrors, join_group-Mirrors, leave_group-Mirrors, remove_member-Mirrors,
  delete_group-Mirrors, set_active_group-Mirrors,
}
use ark_esp_backend.Sharing.Validity.{IsValid}
use ark_esp_backend.Sharing.Validity.Writes.{IsValid-invites}
use ark_esp_backend.Sharing.Validity.Methods.{
  create_group-IsValid, join_group-IsValid, leave_group-IsValid, remove_member-IsValid,
  delete_group-IsValid, set_active_group-IsValid,
}

-- A call that may write: with its fresh id, its time and its generated token.
pub data Request : Type 0 where
  create_group : (id now account_id : ℕ) → String → Request
  create_invite : (id now : ℕ) → String → (group_id account_id : ℕ) → GroupInviteCreate → Request
  join_group : (now account_id : ℕ) → String → Request
  leave_group : (group_id account_id : ℕ) → Request
  remove_member : (group_id requester_account_id target_account_id : ℕ) → Request
  delete_group : (group_id account_id : ℕ) → Request
  set_active_group : (account_id group_id : ℕ) → Request

module _ (hash_token : String → String) (cache : Bool) where
  -- the state that the request leaves, whether it returned or raised
  unfoldable pub handle : Request → State → State
  handle (Request.create_group id now a name) s = (Service.create_group id now a name cache s).1
  handle (Request.create_invite id now token g a spec) s =
      (Service.create_invite hash_token id now token g a spec s).1
  handle (Request.join_group now a token) s = (Service.join_group hash_token now a token cache s).1
  handle (Request.leave_group g a) s = (Service.leave_group g a cache s).1
  handle (Request.remove_member g a b) s = (Service.remove_member g a b cache s).1
  handle (Request.delete_group g a) s = (Service.delete_group g a cache s).1
  handle (Request.set_active_group a g) s = (Service.set_active_group a g cache s).1

  unfoldable pub serve : List Request → State → State
  unfolding handle
  serve [] s = s
  serve (r ∷ rs) s = serve rs (handle r s)

insert_invite-cases :
    (i : GroupInviteToken) (db : Db)
    → (Repo.insert_invite i db ≡ none)
      ⊎ (Repo.insert_invite i db ≡ some (record db { invites = i ∷ db.invites }))
unfolding Repo.insert_invite
insert_invite-cases i db = elim (Option-cases (Repo.insert_invite i db)) [
  | inl refused ↦ inl refused
  | inr (db', e) ↦ inr (ground arith)
]

-- `create_invite` writes to the invitations only.
create_invite-cases :
    (hash_token : String → String) (id now : ℕ) (token : String) (g a : ℕ)
    (spec : GroupInviteCreate) (s : State)
    → (invites : List GroupInviteToken) × ((Service.create_invite hash_token id now token g a spec
          s).1
        ≡ record s { db = record s.db { invites = invites } })
unfolding Service.create_invite
create_invite-cases hash_token id now token g a spec s = elim (require_owner-cases g a s) [
  | inl (_, e) ↦ (s.db.invites, rw e)
  | inr (r, m, found, member, owner, e) ↦ elim (insert_invite-cases row s.db) [
    | inl refused ↦ (s.db.invites, rw (e, refused))
    | inr inserted ↦ (row ∷ s.db.invites, rw (e, inserted))
  ]
]
  where
    row : GroupInviteToken
    row = record {
      id = id;
      group_id = g;
      token_hash = hash_token token;
      created_by_account_id = a;
      grants_role_code = spec.grants_role_code;
      max_uses = spec.max_uses;
      uses_count = 0;
      status_code = InviteStatus.active;
      expires_at = spec.expires_at;
      created_at = now;
    }

create_invite-IsValid :
    (hash_token : String → String) (id now : ℕ) (token : String) (g a : ℕ)
    (spec : GroupInviteCreate) (s : State)
    → IsValid s.db
    → IsValid (Service.create_invite hash_token id now token g a spec s).1.db
create_invite-IsValid hash_token id now token g a spec s v =
    let (invites, e) = create_invite-cases hash_token id now token g a spec s in
    rw e (IsValid-invites invites v)

create_invite-Mirrors :
    (hash_token : String → String) (id now : ℕ) (token : String) (g a : ℕ)
    (spec : GroupInviteCreate) (s : State)
    → Mirrors s
    → Mirrors (Service.create_invite hash_token id now token g a spec s).1
create_invite-Mirrors hash_token id now token g a spec s h =
    let (invites, e) = create_invite-cases hash_token id now token g a spec s in
    rw e (record {
      member = λ g' b. rw is_member-invites (h.member g' b);
      active = λ b. rw active_group-invites (h.active b);
    })

module _ (hash_token : String → String) where
  handle-IsValid :
      (cache : Bool) (r : Request) (s : State)
      → IsValid s.db
      → IsValid (handle hash_token cache r s).db
  unfolding handle
  handle-IsValid c (Request.create_group id now a name) s v =
      create_group-IsValid s v c id now a name
  handle-IsValid c (Request.create_invite id now token g a spec) s v =
      create_invite-IsValid hash_token id now token g a spec s v
  handle-IsValid c (Request.join_group now a token) s v =
      join_group-IsValid s v c hash_token now a token
  handle-IsValid c (Request.leave_group g a) s v = leave_group-IsValid s v c g a
  handle-IsValid c (Request.remove_member g a b) s v = remove_member-IsValid s v c g a b
  handle-IsValid c (Request.delete_group g a) s v = delete_group-IsValid s v c g a
  handle-IsValid c (Request.set_active_group a g) s v = set_active_group-IsValid s v c a g

  handle-Mirrors :
      (r : Request) (s : State) → IsValid s.db → Mirrors s → Mirrors (handle hash_token true r s)
  unfolding handle
  handle-Mirrors (Request.create_group id now a name) s v h = create_group-Mirrors h id now a name
  handle-Mirrors (Request.create_invite id now token g a spec) s v h =
      create_invite-Mirrors hash_token id now token g a spec s h
  handle-Mirrors (Request.join_group now a token) s v h =
      join_group-Mirrors h hash_token now a token
  handle-Mirrors (Request.leave_group g a) s v h = leave_group-Mirrors h g a
  handle-Mirrors (Request.remove_member g a b) s v h = remove_member-Mirrors h g a b
  handle-Mirrors (Request.delete_group g a) s v h = delete_group-Mirrors h g a v.unique
  handle-Mirrors (Request.set_active_group a g) s v h = set_active_group-Mirrors h a g

  -- From valid tables, any requests, with a cache or without one and failing or not, leave valid
  -- tables: the owner of every group is one of its members, every account shares only into a group
  -- that it is a member of, every membership is in a group that exists, and account ids are unique.
  pub serve-IsValid :
      (cache : Bool) (rs : List Request) (s : State)
      → IsValid s.db
      → IsValid (serve hash_token cache rs s).db
  unfolding serve
  serve-IsValid cache [] s v = v
  serve-IsValid cache (r ∷ rs) s v =
      serve-IsValid cache rs (handle hash_token cache r s) (handle-IsValid cache r s v)

  -- From valid tables that Redis mirrors, any requests with a cache, failing or not, leave Redis
  -- with exactly the members and the active groups of the tables.
  pub serve-Mirrors :
      (rs : List Request) (s : State)
      → IsValid s.db
      → Mirrors s
      → Mirrors (serve hash_token true rs s)
  unfolding serve
  serve-Mirrors [] s v h = h
  serve-Mirrors (r ∷ rs) s v h =
      serve-Mirrors rs (handle hash_token true r s) (handle-IsValid true r s v)
        (handle-Mirrors r s v h)

  -- From valid tables that Redis mirrors, after any requests with a cache: where Redis sends the
  -- sharing of an account into a group, Redis also lists the account as a member of that group.
  pub relay_shares_into_own_group :
      (rs : List Request) (s : State)
      → IsValid s.db
      → Mirrors s
      → (a g : ℕ) → (serve hash_token true rs s).redis.active a ≡ some g
      → (serve hash_token true rs s).redis.member g a ≡ true
  relay_shares_into_own_group rs s v h a g e =
      let after = serve-Mirrors rs s v h in
      after.member g a ∙ (serve-IsValid true rs s v).active a g (sym (after.active a) ∙ e)
