-- ===== src/Hosts/Request.antt =====
-- src/hosts/service.py: `get_or_create_host`, the answer to POST /hosts, and its idempotency keys.
pub mod Replay
use drukbox.Base.{
  ℕ, ◌+◌, String, Bool, false, not, ◌&&◌, ◌||◌, Option, none, some, List, [], ◌∷◌, ◌++◌, ltb, leb,
  if◌then◌else◌, str_eq, is_some, is_some_text, is_some_count, is_empty, any, keep_if, opt_text_eq,
  lookup, or_else,
}
use drukbox.Base.Op.{pure, raise, pass, ◌>>=◌, ◌>>◌}
use drukbox.Providers.{ProviderKind, lease_end, get_provider_names}
use drukbox.Hosts.Model.{
  Host, IdempotencyKey, provider_error, host_capacity, host_state, idempotency_key_conflict,
}
use drukbox.Hosts.World.{Env, Act, query, store, utc_now, await_others, hours, has_host}
use drukbox.Hosts.Session.{vm_of, get_host, commit_host}
use drukbox.Hosts.Create.{HostRequest, create_host, count_live_hosts}
use drukbox.Hosts.Claim.{try_claim, pool_targets}

abbrev pub find_key : String → List IdempotencyKey → Option IdempotencyKey
find_key key [] = none
find_key key (k ∷ ks) = if str_eq k.key key then some k else find_key key ks

abbrev pub drop_key : String → List IdempotencyKey → List IdempotencyKey
drop_key key = keep_if (λ k. not (str_eq k.key key))

-- `ServiceAccount.ADMIN`
abbrev pub is_limited_account : Option String → Bool
is_limited_account none = false
is_limited_account (some name) = not (str_eq name "admin")

-- `customized`: a request that only a new host can meet.
unfoldable pub is_customized : HostRequest → Bool
is_customized r =
    not (is_empty r.env)
    || not (is_empty r.secrets)
    || is_some_text r.image
    || is_some r.template
    || is_some_text r.instance_type
    || is_some_count r.disk_gb

abbrev pub unclaimed : Option ℕ → ℕ → Host → Host
unclaimed end now h = record h {
  claimed_at = none;
  service_account = none;
  expires_at = end;
  updated_at = now;
}

abbrev pub expired : ℕ → Host → Host
expired now h = record h { expires_at = some now; updated_at = now }

-- The row of `_record_idempotency_key`.
abbrev pub new_key : String → ℕ → ℕ → ℕ → IdempotencyKey
new_key key host_id now end = record {
  key = key;
  host_id = host_id;
  created_at = now;
  expires_at = end;
}

module _ (env : Env) where
  -- A key in force, its host alive, is answered for the account that owns the host only.
  unfoldable pub key_holder : String → Option String → Option Host → Act (Option Host)
  key_holder key service_account (some h) =
      if not (opt_text_eq h.service_account service_account)
      then raise (idempotency_key_conflict key)
      else pure (some h)
  key_holder key service_account none = do
    store env (λ db. record db { keys = drop_key key db.keys })
    await_others env
    pure none

  -- `_lookup_idempotency_key`; a stale key goes.
  unfoldable pub lookup_key : String → Option String → Act (Option Host)
  unfolding key_holder get_host
  lookup_key key service_account = do
    record_found ← query env (λ db. find_key key db.keys)
    elim record_found [
      | none ↦ pure none
      | some k ↦ (do
        now ← utc_now env
        held ← (if ltb now k.expires_at then get_host env k.host_id else pure none)
        key_holder key service_account held)
    ]

  unfoldable pub write_key : String → Host → ℕ → Act Bool
  write_key key host now = do
    refused ← query env (λ db. is_some (find_key key db.keys) || not (has_host host.id db.hosts))
    if refused
        then pass
        else store env (λ db. record db {
          keys =
              db.keys
              ++ new_key key host.id now (now + hours env.settings.idempotency_key_ttl_hours) ∷ [];
        })
    await_others env
    pure (not refused)

  -- `_record_idempotency_key`: false when the key is taken, or when its host is gone.
  unfoldable pub record_key : String → Host → Act Bool
  unfolding write_key
  record_key key host = do now ← utc_now env; write_key key host now

  unfoldable pub returned_to_pool : ℕ → Host → Act (Unit {0})
  returned_to_pool now fresh = do
    vm ← vm_of env (some fresh.provider)
    commit_host env fresh.id (
        unclaimed
          (lease_end vm fresh.created_at (some (now + hours env.settings.pool_host_max_age_hours)))
          now)

  -- `_release_idempotency_loser`
  unfoldable pub release_loser : Host → Act (Unit {0})
  unfolding returned_to_pool get_host
  release_loser host = do
    found ← get_host env host.id
    elim found [
      | none ↦ pass
      | some fresh ↦ (do
        now ← utc_now env
        if is_some fresh.claimed_at
            then returned_to_pool now fresh
            else commit_host env fresh.id (expired now))
    ]

  unfoldable pub check_provider_name : Option String → Act (Unit {0})
  check_provider_name provider =
      if is_some_text provider
        && not (any (λ n. opt_text_eq (some n) provider) (get_provider_names env.registry))
      then raise (
          provider_error
            (record { kind = ProviderKind.unknown_provider; message = or_else provider "" }))
      else pass

  unfoldable pub check_account_limit : Option String → Act (Unit {0})
  unfolding count_live_hosts
  check_account_limit service_account =
      if is_some_count env.settings.host_limit_per_service_account
        && is_limited_account service_account
      then (do
        live ← count_live_hosts env (λ h. opt_text_eq h.service_account service_account)
        if leb (or_else env.settings.host_limit_per_service_account 0) live
            then raise (host_capacity (or_else service_account ""))
            else pass)
      else pass

  -- A warm host, where the request can take one and there is one.
  unfoldable pub warm_host : HostRequest → Act (Option Host)
  unfolding is_customized
  warm_host r =
      let wanted =
        if is_some_text r.provider
        then or_else r.provider ""
        else env.registry.default_host_provider in
      if not (is_customized r)
        && is_some (lookup wanted (pool_targets env.settings env.registry.default_host_provider))
      then try_claim env r.service_account wanted r.expires_at r.permanent
      else pure none

  unfoldable pub resolve_race : String → Option String → Host → Act Host
  unfolding release_loser
  resolve_race key service_account host = do
    release_loser host
    winner ← lookup_key key service_account
    elim winner [
      | none ↦ raise (host_state "idempotency race could not be resolved")
      | some w ↦ pure w
    ]

  unfoldable pub answered : Option String → Option String → Host → Act Host
  unfolding record_key resolve_race
  answered none service_account host = pure host
  answered (some key) service_account host = do
    recorded ← record_key key host
    if recorded then pure host else resolve_race key service_account host

  unfoldable pub fulfil : HostRequest → Option String → Act Host
  unfolding check_account_limit warm_host answered
  fulfil r key = do
    check_account_limit r.service_account
    warm ← warm_host r
    host ← elim warm [ none ↦ create_host env r false | some h ↦ pure h ]
    answered key r.service_account host

  -- `get_or_create_host`
  unfoldable pub get_or_create_host : HostRequest → Option String → Act Host
  unfolding check_provider_name lookup_key fulfil
  get_or_create_host r none = do check_provider_name r.provider; fulfil r none
  get_or_create_host r (some key) = do
    check_provider_name r.provider
    existing ← lookup_key key r.service_account
    elim existing [ some host ↦ pure host | none ↦ fulfil r (some key) ]
