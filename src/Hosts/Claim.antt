-- ===== src/Hosts/Claim.antt =====
-- src/hosts/service.py: `_try_claim_pool_host`, which gives a warm host to a request, and
-- `get_pool_targets` of src/core/settings.py.
pub mod Race
use drukbox.Base.{
  ℕ, ◌-◌, String, Bool, true, not, ◌&&◌, Option, none, some, List, [], ◌∷◌, ltb, leb, ◌==◌,
  if◌then◌else◌, str_eq, is_some, keep_if, update,
}
use drukbox.Base.Op.{pure, ◌>>=◌, ◌>>◌}
use drukbox.Providers.{Provider, lease_end, lifetime}
use drukbox.Hosts.Model.{Host, is_active, is_unexpired}
use drukbox.Hosts.World.{Env, Act, Settings, query, store, utc_now, await_others}
use drukbox.Hosts.Session.{vm_of, on_hosts}
use drukbox.Hosts.Create.{lease_of}

-- `get_pool_targets`
unfoldable pub pool_targets : Settings → String → List (String × ℕ)
pool_targets settings default =
    keep_if (λ e. ltb 0 e.1) (update ((default, settings.pool_size) ∷ []) settings.pool_sizes)

-- `ORDER BY created_at LIMIT 1`, over rows in the table's order.
unfoldable pub oldest : List Host → Option Host
oldest [] = none
oldest (h ∷ hs) = elim (oldest hs) [
  | none ↦ some h
  | some other ↦ if leb h.created_at other.created_at then some h else some other
]

-- `Host.created_at >= expires_at - vm.max_lifetime`, where the provider has a life and the request
-- an end.
abbrev pub lives_until : Provider → Option ℕ → Host → Bool
lives_until vm none h = true
lives_until vm (some end) h = elim (lifetime vm) [
  | none ↦ true
  | some life ↦ leb (end - life) h.created_at
]

-- The WHERE of the candidates: warm, unclaimed, active, unexpired.
unfoldable pub is_claimable : Provider → String → Option ℕ → ℕ → Host → Bool
is_claimable vm provider expires_at now h =
    str_eq h.provider provider
    && h.pool_member
    && not (is_some h.claimed_at)
    && is_active h.status
    && is_unexpired h.expires_at now
    && lives_until vm expires_at h

-- The UPDATE of the claim, with the row that it returns, if its WHERE holds of one.
unfoldable pub claimed : ℕ → (Host → Host) → List Host → List Host × Option Host
claimed i f [] = ([], none)
claimed i f (h ∷ hs) =
    if h.id == i && not (is_some h.claimed_at)
    then (f h ∷ hs, some (f h))
    else (h ∷ (claimed i f hs).0, (claimed i f hs).1)

module _ (env : Env) where
  unfoldable pub claim_values : Provider → Option String → ℕ → ℕ → Option ℕ → Host → Host
  claim_values vm service_account now created_at end h = record h {
    service_account = service_account;
    claimed_at = some now;
    updated_at = now;
    expires_at = lease_end vm created_at end;
  }

  unfoldable pub claim_update : ℕ → (Host → Host) → Act (Option Host)
  claim_update i f = do
    result ← query env (λ db. (claimed i f db.hosts).1)
    store env (on_hosts (λ hs. (claimed i f hs).0))
    await_others env
    pure result

  unfoldable pub claim_candidate :
      Option String → Option ℕ → Bool → ℕ → Provider → Option Host → Act (Option Host)
  unfolding claim_update claim_values
  claim_candidate service_account expires_at permanent now vm none = pure none
  claim_candidate service_account expires_at permanent now vm (some c) = do
    end ← lease_of env permanent expires_at
    claim_update c.id (claim_values vm service_account now c.created_at end)

  -- `_try_claim_pool_host`; another request may run between the select and the update.
  unfoldable pub try_claim : Option String → String → Option ℕ → Bool → Act (Option Host)
  unfolding claim_candidate
  try_claim service_account provider expires_at permanent = do
    now ← utc_now env
    vm ← vm_of env (some provider)
    candidate ←
        query env (λ db. oldest (keep_if (is_claimable vm provider expires_at now) db.hosts))
    await_others env
    claim_candidate service_account expires_at permanent now vm candidate
