-- ===== src/Sharing/Mirror.antt =====
-- The mirror in Redis agrees with Postgres after every method of the sharing service.
pub mod Methods
use ark_esp_backend.Prelude.{
  ℕ, ◌≡◌, ◌⊎◌, inl, inr, ◌≢◌, true, none, some, arith, ◌==◌, equals_some, ==_iff, Bool-cases,
  Option-cases, ok, err,
}
use ark_esp_backend.Models.{SharingGroup, GroupMember, State, Db}
use ark_esp_backend.Sharing.Repo
use ark_esp_backend.Sharing.Repo.{get_by_id, get_member, get_group_by_id, has_member_key}
use ark_esp_backend.Sharing.Cache
use ark_esp_backend.Sharing.Service.{
  SharingError, not_found, forbidden, get_group_for_member, require_owner, set_active,
  clear_active_if_matches, clear_active,
}
use ark_esp_backend.Sharing.View.{
  is_member, active_group, is_member-accounts, active_group-delete_member,
  active_group-insert_member, active_group-assign, is_member-delete_member, is_member-insert_member,
}

-- Redis holds the members of every group, and where every account shares.
pub record Mirrors (s : State) : Type 0 where
  pub member : (g a : ℕ) → s.redis.member g a ≡ is_member g a s.db
  pub active : (a : ℕ) → s.redis.active a ≡ active_group a s.db

-- How `get_group_for_member` ends.
pub get_group_for_member-cases :
    (g a : ℕ) (s : State)
    → (get_group_for_member g a s ≡ (err not_found, s))
      ⊎ ((r : SharingGroup) × (m : GroupMember) × (get_group_by_id g s.db ≡ some r)
          × (get_member g a s.db ≡ some m)
          × (get_group_for_member g a s ≡ (ok r, s)))
unfolding get_group_for_member
get_group_for_member-cases g a s = elim (Option-cases (get_group_by_id g s.db)) [
  | inl absent ↦ inl (ground arith)
  | inr (r, found) ↦ elim (Option-cases (get_member g a s.db)) [
    | inl absent ↦ inl (ground arith)
    | inr (m, member) ↦ inr (r, m, found, member, ground arith)
  ]
]

pub require_owner-cases :
    (g a : ℕ) (s : State)
    → ((e : SharingError) × (require_owner g a s ≡ (err e, s)))
      ⊎ ((r : SharingGroup) × (m : GroupMember) × (get_group_by_id g s.db ≡ some r)
          × (get_member g a s.db ≡ some m)
          × (r.owner_account_id ≡ a)
          × (require_owner g a s ≡ (ok r, s)))
unfolding require_owner
require_owner-cases g a s = elim (get_group_for_member-cases g a s) [
  | inl e ↦ inl (not_found, rw e)
  | inr (r, m, found, member, e) ↦ elim (Bool-cases (r.owner_account_id == a)) [
    | inl same ↦ inr (r, m, found, member, (==_iff r.owner_account_id a).0 same, rw (e, same))
    | inr other ↦ inl (forbidden, rw (e, other))
  ]
]

module _ {s : State} (h : Mirrors s) where
  pub Mirrors-set_active : (a g : ℕ) → Mirrors (set_active a g true s).1
  unfolding set_active Cache.set_active_group
  Mirrors-set_active a g = elim (Option-cases (get_by_id a s.db)) [
    | inl e ↦ rw e h
    | inr (r, e) ↦ rw e (record {
      member = λ g' b. rw is_member-accounts (h.member g' b);
      active = λ b. rw active_group-assign (ground (arith, h.active b));
    })
  ]

  pub Mirrors-clear_active :
      (a : ℕ) → active_group a s.db ≢ none → Mirrors (clear_active a true s).1
  unfolding clear_active Cache.clear_active_group active_group
  Mirrors-clear_active a set = record {
    member = λ g' b. rw is_member-accounts (h.member g' b);
    active = λ b. rw active_group-assign (ground (arith, h.active b));
  }

  pub Mirrors-clear_active_if_matches : (a g : ℕ) → Mirrors (clear_active_if_matches a g true s).1
  unfolding clear_active_if_matches
  Mirrors-clear_active_if_matches a g = elim (Option-cases (get_by_id a s.db)) [
    | inl e ↦ rw e h
    | inr (r, e) ↦ elim (Bool-cases (equals_some r.active_group_id g)) [
      | inl same ↦ rw (e, same) (Mirrors-clear_active a (unfold active_group in ground arith))
      | inr other ↦ rw (e, other) h
    ]
  ]

  -- a member row deleted, and the cache told
  pub Mirrors-delete_member :
      (m : GroupMember) (g a : ℕ)
      → m.group_id ≡ g
      → m.account_id ≡ a
      → Mirrors (record { db = Repo.delete_member m s.db; redis = Cache.remove_member g a s.redis })
  unfolding Cache.remove_member
  Mirrors-delete_member m g a eg ea = record {
    member = λ g' b. rw is_member-delete_member (ground (arith, h.member g' b));
    active = λ b. rw active_group-delete_member (h.active b);
  }

  -- a member row inserted, and the cache told
  pub Mirrors-insert_member :
      (m : GroupMember) (db : Db)
      → Repo.insert_member m s.db ≡ some db
      → Mirrors (record { db = db; redis = Cache.add_member m.group_id m.account_id s.redis })
  unfolding Cache.add_member
  Mirrors-insert_member m db e = record {
    member = λ g' b. rw (is_member-insert_member m s.db db g' b e) (ground (arith, h.member g' b));
    active = λ b. rw (active_group-insert_member m s.db db b e) (h.active b);
  }
