-- ===== src/Hosts/Invariant/Defs.antt =====
-- Soundness of the database (src/hosts/models.py).
use drukbox.Base.{ℕ, Bool, true, false, not, ◌&&◌, ◌||◌, ◌≡◌, List, [], ◌∷◌, is_some, All}
use drukbox.Hosts.Model.{Host, IdempotencyKey, is_active}
use drukbox.Hosts.World.{Db, World, Env, has_host, has_name}
use drukbox.Hosts.Request.{find_key}

-- A warm host belongs to no service account, and an active host has the time of its activation.
abbrev pub row_ok : Host → Bool
row_ok h =
    (not h.pool_member || is_some h.claimed_at || not (is_some h.service_account))
    && (not (is_active h.status) || is_some h.activated_at)

abbrev pub DistinctIds : List Host → Type 0
DistinctIds [] = Unit {0}
DistinctIds (h ∷ hs) = (has_host h.id hs ≡ false) × DistinctIds hs

abbrev pub DistinctNames : List Host → Type 0
DistinctNames [] = Unit {0}
DistinctNames (h ∷ hs) = (has_name h.name hs ≡ false) × DistinctNames hs

abbrev pub DistinctKeys : List IdempotencyKey → Type 0
DistinctKeys [] = Unit {0}
DistinctKeys (k ∷ ks) = (is_some (find_key k.key ks) ≡ false) × DistinctKeys ks

abbrev pub HaveHosts : List Host → List IdempotencyKey → Type 0
HaveHosts hosts keys = All (λ k. has_host k.host_id hosts ≡ true) keys

pub record IsSound (db : Db) : Type 0 where
  pub ids : DistinctIds db.hosts
  pub names : DistinctNames db.hosts
  pub rows : All (λ h. row_ok h ≡ true) db.hosts
  pub keys : DistinctKeys db.keys
  pub held : HaveHosts db.hosts db.keys

-- The other requests and processes keep the database sound too.
abbrev pub OthersKeep : Env → Type 0
OthersKeep env = (n : ℕ) (db : Db) → IsSound db → IsSound (env.others n db)

abbrev pub Sound : World → Type 0
Sound w = IsSound w.db
