-- ===== src/Hosts/Pool.antt =====
-- src/hosts/pool.py: one tick of the pool maintainer, and src/hosts/janitor.py's sweep.
pub mod Batch
use Prim.Native.String.{compare}
use Prim.Native.Nat.{Ordering}
use drukbox.Base.{
  ℕ, zero, suc, ◌+◌, ◌-◌, String, Bool, true, false, not, ◌&&◌, Option, none, some, List, [], ◌∷◌,
  ◌++◌, map, ltb, leb, ◌==◌, if◌then◌else◌, str_eq, is_some, is_empty, keep_if, count_if, take,
  or_else, lookup,
}
use drukbox.Base.Op.{Result, ok, err, pure, gets, attempt, ◌>>=◌, ◌>>◌}
use drukbox.Hosts.Model.{Host, Error, is_error, is_unexpired, resource_not_found}
use drukbox.Hosts.World.{Env, Db, Act, query, utc_now, hours, await_others}
use drukbox.Hosts.Pool.Batch.{Deficits, batch}
use drukbox.Hosts.Create.{HostRequest, create_host}
use drukbox.Hosts.Claim.{pool_targets}
use drukbox.Hosts.Lifecycle.{delete_host}

-- The WHERE of a provider's warm hosts: fresh, unclaimed, not in error.
unfoldable pub is_warm : String → ℕ → Host → Bool
is_warm provider now h =
    str_eq h.provider provider
    && h.pool_member
    && not (is_some h.claimed_at)
    && not (is_error h.status)
    && is_unexpired h.expires_at now

unfoldable pub warm_count : ℕ → List Host → String → ℕ
unfolding is_warm
warm_count now hosts provider = count_if (is_warm provider now) hosts

insert_name : String → List String → List String
insert_name p [] = p ∷ []
insert_name p (q ∷ qs) = elim (compare p q) [
  | Ordering.lt ↦ p ∷ q ∷ qs
  | Ordering.eq ↦ q ∷ qs
  | Ordering.gt ↦ q ∷ insert_name p qs
]

sorted_names : List String → List String
unfolding insert_name
sorted_names [] = []
sorted_names (p ∷ ps) = insert_name p (sorted_names ps)

insert_by_age : Host → List Host → List Host
insert_by_age h [] = h ∷ []
insert_by_age h (g ∷ gs) =
    if leb h.created_at g.created_at then h ∷ g ∷ gs else g ∷ insert_by_age h gs

unfoldable pub by_age : List Host → List Host
unfolding insert_by_age
by_age [] = []
by_age (h ∷ hs) = insert_by_age h (by_age hs)

-- How many of the counted hosts of one provider are beyond its target.
unfoldable pub surplus : ℕ → List Host → List (String × ℕ) → String → ℕ
unfolding warm_count
surplus now counted targets provider =
    warm_count now counted provider - or_else (lookup provider targets) 0

-- The oldest warm hosts of one provider.
unfoldable pub oldest_warm : ℕ → String → ℕ → List Host → List ℕ
unfolding by_age is_warm
oldest_warm now provider count hosts =
    map (λ h. h.id) (take count (by_age (keep_if (is_warm provider now) hosts)))

-- `underfilled`, with the number that each provider lacks.
unfoldable pub deficits_of : ℕ → List Host → List (String × ℕ) → Deficits
unfolding warm_count
deficits_of now hosts [] = []
deficits_of now hosts ((p, target) ∷ targets) =
    if ltb (warm_count now hosts p) target
    then (p, target - warm_count now hosts p) ∷ deficits_of now hosts targets
    else deficits_of now hosts targets

-- `_MAX_CONSECUTIVE_CREATE_FAILURES`
abbrev pub max_consecutive_create_failures : ℕ
max_consecutive_create_failures = 3

abbrev pub pool_request : String → ℕ → HostRequest
pool_request provider end = record {
  service_account = none;
  env = [];
  secrets = [];
  image = none;
  template = none;
  expires_at = some end;
  permanent = false;
  provider = some provider;
  instance_type = none;
  disk_gb = none;
}

module _ (env : Env) where
  -- The top-up: how many hosts were created, until the failures in a row are too many.
  unfoldable pub top_up : List String → ℕ → ℕ → Act ℕ
  top_up [] created failures = pure created
  top_up (provider ∷ providers) created failures = do
    now ← utc_now env
    made ← attempt (
        create_host env (pool_request provider (now + hours env.settings.pool_host_max_age_hours))
          true)
    elim made [
      | ok host ↦ top_up providers (created + 1) 0
      | err e ↦
          if leb max_consecutive_create_failures (failures + 1)
          then pure created
          else top_up providers created (failures + 1)
    ]

  -- The shedding: a failure, or a host that was claimed meanwhile, leaves the others.
  unfoldable pub shed : List ℕ → ℕ → Act ℕ
  shed [] removed = pure removed
  shed (i ∷ ids) removed = do
    deleted ← attempt (delete_host env false true false i)
    elim deleted [ ok true ↦ shed ids (removed + 1) | _ ↦ shed ids removed ]

  -- One query for each provider with a surplus; the other requests run before it.
  unfoldable pub excess_over : ℕ → List Host → List (String × ℕ) → List String → Act (List ℕ)
  unfolding surplus oldest_warm
  excess_over now counted targets [] = pure []
  excess_over now counted targets (p ∷ ps) = do
    ids ←
        (if surplus now counted targets p == 0 then pure [] else (do
          await_others env
          query env (λ db. oldest_warm now p (surplus now counted targets p) db.hosts)))
    others ← excess_over now counted targets ps
    pure (ids ++ others)

  -- Of the union of the providers with hosts and those with a target.
  unfoldable pub excess_ids : ℕ → List Host → List (String × ℕ) → Act (List ℕ)
  unfolding excess_over sorted_names
  excess_ids now counted targets =
      excess_over now counted targets
        (sorted_names (map (λ h. h.provider) counted ++ map (λ e. e.0) targets))

  -- `_maintain`; `shuffle` is `random.shuffle`. It returns how many hosts were created and shed.
  unfoldable pub maintain : (Deficits → Deficits) → List (String × ℕ) → Act (ℕ × ℕ)
  unfolding top_up shed excess_ids deficits_of
  maintain shuffle targets = do
    now ← utc_now env
    counted ← query env (λ db. db.hosts)
    excess ← excess_ids now counted targets
    created ←
        top_up
          (batch env.settings.pool_max_creates_per_tick (shuffle (deficits_of now counted targets)))
          0 0
    removed ← shed excess 0
    pure (created, removed)

  -- `maintain_pool`
  unfoldable pub maintain_pool : (Deficits → Deficits) → Act (ℕ × ℕ)
  unfolding maintain
  maintain_pool shuffle =
      let targets = pool_targets env.settings env.registry.default_host_provider in
      if is_empty targets then pure (0, 0) else maintain shuffle targets
