-- ===== src/Sharing/Invites/Methods.antt =====
-- Requests that do not overlap never use an invitation more often than its limit allows.
use ark_esp_backend.Prelude.{
  ℕ, String, ◌≡◌, inl, inr, Bool, none, some, List, [], ◌∷◌, arith, ◌==◌, Bool-cases, Option-cases,
  equals_some, after-pure,
}
use ark_esp_backend.Prelude.Table.{find}
use ark_esp_backend.Models.{SharingGroup, GroupMember, GroupInviteToken, InviteStatus, State, Db}
use ark_esp_backend.Sharing.Repo
use ark_esp_backend.Sharing.Repo.{
  get_by_id, get_member, has_token_hash, get_invite_by_token_hash_for_update,
}
use ark_esp_backend.Sharing.Service
use ark_esp_backend.Sharing.Service.{
  GroupInviteCreate, set_active, clear_active_if_matches, clear_active, count_use, joined,
}
use ark_esp_backend.Sharing.Mirror.{get_group_for_member-cases, require_owner-cases}
use ark_esp_backend.Sharing.Mirror.Methods.{join_admit-cases}
use ark_esp_backend.Sharing.Invites.{
  unused, has_id, IsBounded, IsBounded-delete, IsBounded-count_use,
}
use ark_esp_backend.Sharing.Requests.{Request, handle, serve}

abbrev Bounded : State → Type 0
Bounded s = IsBounded s.db.invites

Bounded-set_active :
    (a g : ℕ) (cache : Bool) (s : State) → Bounded s → Bounded (set_active a g cache s).1
unfolding set_active
Bounded-set_active a g cache s b = elim (Option-cases (get_by_id a s.db)) [
  | inl e ↦ rw e b
  | inr (r, e) ↦ rw e b
]

Bounded-clear_active_if_matches :
    (a g : ℕ) (cache : Bool) (s : State)
    → Bounded s
    → Bounded (clear_active_if_matches a g cache s).1
unfolding clear_active_if_matches clear_active
Bounded-clear_active_if_matches a g cache s b = elim (Option-cases (get_by_id a s.db)) [
  | inl e ↦ rw e b
  | inr (r, e) ↦ elim (Bool-cases (equals_some r.active_group_id g)) [
    | inl same ↦ rw (e, same) b
    | inr other ↦ rw (e, other) b
  ]
]

invites-insert_group :
    (r : SharingGroup) (db db' : Db) → Repo.insert_group r db ≡ some db' → db'.invites ≡ db.invites
unfolding Repo.insert_group
invites-insert_group r db db' e = ground arith

invites-insert_member :
    (m : GroupMember) (db db' : Db) → Repo.insert_member m db ≡ some db' → db'.invites ≡ db.invites
unfolding Repo.insert_member
invites-insert_member m db db' e = ground arith

-- What an accepted invitation adds.
fresh-insert_invite :
    (i : GroupInviteToken) (db db' : Db)
    → Repo.insert_invite i db ≡ some db'
    → (db'.invites ≡ i ∷ db.invites) × (find (has_id i.id) db.invites ≡ none)
unfolding Repo.insert_invite
fresh-insert_invite i db db' e = ground arith

module _ (s : State) (b : Bounded s) (cache : Bool) where
  create_group-Bounded :
      (id now a : ℕ) (name : String) → Bounded (Service.create_group id now a name cache s).1
  unfolding Service.create_group
  create_group-Bounded id now a name = elim (Option-cases (Repo.insert_group group s.db)) [
    | inl refused ↦ rw refused b
    | inr (db, e) ↦
        let with_group : IsBounded db.invites = rw (invites-insert_group group s.db db e) b in
        elim (Option-cases (Repo.insert_member owner db)) [
          | inl refused ↦ rw (e, refused) with_group
          | inr (db', e') ↦
              rw (e, e')
                (after-pure Bounded (set_active a id cache) group _ (
                  Bounded-set_active a id cache _
                    (rw (invites-insert_member owner db db' e') with_group)))
        ]
  ]
    where
      group : SharingGroup
      group = record { id = id; name = name; owner_account_id = a; created_at = now }

      owner : GroupMember
      owner = record { group_id = id; account_id = a; role_code = "owner"; joined_at = now }

  join_group-Bounded :
      (hash_token : String → String) (now a : ℕ) (token : String)
      → Bounded (Service.join_group hash_token now a token cache s).1
  unfolding Service.join_group Service.join_count Service.join_share
  join_group-Bounded hash_token now a token = elim (join_admit-cases hash_token now a token s) [
    | inl (_, e) ↦ rw e b
    | inr (i, db, found, usable, absent, inserted, e) ↦
        let same = invites-insert_member (joined now a i) s.db db inserted in
        rw e (
          after-pure Bounded (set_active a i.group_id cache) (joined now a i) _ (
            Bounded-set_active a i.group_id cache _ (
              rw same (
                IsBounded-count_use now (has_token_hash (hash_token token)) i usable s.db.invites b
                  (unfold get_invite_by_token_hash_for_update in found)))))
  ]

  leave_group-Bounded : (g a : ℕ) → Bounded (Service.leave_group g a cache s).1
  unfolding Service.leave_group Repo.delete_member
  leave_group-Bounded g a = elim (get_group_for_member-cases g a s) [
    | inl e ↦ rw e b
    | inr (r, m, found, member, e) ↦ elim (Bool-cases (r.owner_account_id == a)) [
      | inl owner ↦ rw (e, owner) b
      | inr other ↦ rw (e, other, member) (Bounded-clear_active_if_matches a g cache _ b)
    ]
  ]

  remove_member-Bounded : (g a c : ℕ) → Bounded (Service.remove_member g a c cache s).1
  unfolding Service.remove_member Repo.delete_member
  remove_member-Bounded g a c = elim (require_owner-cases g a s) [
    | inl (_, e) ↦ rw e b
    | inr (r, m, found, member, owner, e) ↦ elim (Bool-cases (c == a)) [
      | inl self ↦ rw (e, self) b
      | inr other ↦ elim (Option-cases (get_member g c s.db)) [
        | inl absent ↦ rw (e, other, absent) b
        | inr (n, target) ↦ rw (e, other, target) (Bounded-clear_active_if_matches c g cache _ b)
      ]
    ]
  ]

  delete_group-Bounded : (g a : ℕ) → Bounded (Service.delete_group g a cache s).1
  unfolding Service.delete_group Repo.delete_group
  delete_group-Bounded g a = elim (require_owner-cases g a s) [
    | inl (_, e) ↦ rw e b
    | inr (r, m, found, member, owner, e) ↦ rw e (IsBounded-delete _ s.db.invites b)
  ]

  set_active_group-Bounded : (a g : ℕ) → Bounded (Service.set_active_group a g cache s).1
  unfolding Service.set_active_group
  set_active_group-Bounded a g = elim (get_group_for_member-cases g a s) [
    | inl e ↦ rw e b
    | inr (r, m, found, member, e) ↦ rw e (Bounded-set_active a g cache s b)
  ]

  create_invite-Bounded :
      (hash_token : String → String) (id now : ℕ) (token : String) (g a : ℕ)
      (spec : GroupInviteCreate)
      → Bounded (Service.create_invite hash_token id now token g a spec s).1
  unfolding Service.create_invite
  create_invite-Bounded hash_token id now token g a spec = elim (require_owner-cases g a s) [
    | inl (_, e) ↦ rw e b
    | inr (r, m, found, member, owner, e) ↦ elim (Option-cases (Repo.insert_invite row s.db)) [
      | inl refused ↦ rw (e, refused) b
      | inr (db, inserted) ↦
          let (added, fresh) = fresh-insert_invite row s.db db inserted in
          rw (e, inserted) (rw added (fresh, unused spec.max_uses, b))
    ]
  ]
    where
      row : GroupInviteToken
      row = record {
        id = id;
        group_id = g;
        token_hash = hash_token token;
        created_by_account_id = a;
        grants_role_code = spec.grants_role_code;
        max_uses = spec.max_uses;
        uses_count = 0;
        status_code = InviteStatus.active;
        expires_at = spec.expires_at;
        created_at = now;
      }

module _ (hash_token : String → String) (cache : Bool) where
  handle-Bounded : (r : Request) (s : State) → Bounded s → Bounded (handle hash_token cache r s)
  unfolding handle
  handle-Bounded (Request.create_group id now a name) s b =
      create_group-Bounded s b cache id now a name
  handle-Bounded (Request.create_invite id now token g a spec) s b =
      create_invite-Bounded s b cache hash_token id now token g a spec
  handle-Bounded (Request.join_group now a token) s b =
      join_group-Bounded s b cache hash_token now a token
  handle-Bounded (Request.leave_group g a) s b = leave_group-Bounded s b cache g a
  handle-Bounded (Request.remove_member g a c) s b = remove_member-Bounded s b cache g a c
  handle-Bounded (Request.delete_group g a) s b = delete_group-Bounded s b cache g a
  handle-Bounded (Request.set_active_group a g) s b = set_active_group-Bounded s b cache a g

  -- Where ids of invitations are unique and none has passed its limit, that holds again after any
  -- requests that run one after the other, with a cache or without one, failing or not.
  pub serve-IsBounded :
      (rs : List Request) (s : State)
      → IsBounded s.db.invites
      → IsBounded (serve hash_token cache rs s).db.invites
  unfolding serve
  serve-IsBounded [] s b = b
  serve-IsBounded (r ∷ rs) s b =
      serve-IsBounded rs (handle hash_token cache r s) (handle-Bounded r s b)
