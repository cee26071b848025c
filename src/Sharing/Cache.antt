-- ===== src/Sharing/Cache.antt =====
-- backend_python/src/core/group_cache.py: `RedisGroupCache`.
use ark_esp_backend.Prelude.{ℕ, true, false, ◌&&◌, none, some, List, [], ◌∷◌, ◌==◌, if◌then◌else◌}
use ark_esp_backend.Models.{Redis}

unfoldable pub add_member : ℕ → ℕ → Redis → Redis
add_member group_id account_id r = record r {
  member = λ g a. if g == group_id && a == account_id then true else r.member g a;
}

-- The revocation is published also if nothing was removed.
unfoldable pub remove_member : ℕ → ℕ → Redis → Redis
remove_member group_id account_id r = record r {
  member = λ g a. if g == group_id && a == account_id then false else r.member g a;
  revoked = (group_id, account_id) ∷ r.revoked;
}

-- the loop of `delete_group`
unfoldable pub publish_all : ℕ → List ℕ → List (ℕ × ℕ) → List (ℕ × ℕ)
publish_all group_id [] log = log
publish_all group_id (account_id ∷ rest) log =
    publish_all group_id rest ((group_id, account_id) ∷ log)

unfoldable pub delete_group : ℕ → List ℕ → Redis → Redis
delete_group group_id member_ids r = record r {
  revoked = publish_all group_id member_ids r.revoked;
  member = λ g a. if g == group_id then false else r.member g a;
}

unfoldable pub set_active_group : ℕ → ℕ → Redis → Redis
set_active_group account_id group_id r = record r {
  active = λ a. if a == account_id then some group_id else r.active a;
}

unfoldable pub clear_active_group : ℕ → Redis → Redis
clear_active_group account_id r = record r {
  active = λ a. if a == account_id then none else r.active a;
}
