-- ===== src/Hosts/Invariant/Requests.antt =====
-- `get_or_create_host` of src/hosts/service.py keeps the database sound.
use drukbox.Base.{
  ℕ, ◌+◌, String, Bool, false, ◌||◌, not, ◌≡◌, refl, Option, none, some, [], ◌∷◌, ◌++◌, arith,
  if◌then◌else◌, is_some, Bool-cases, inl, inr,
}
use drukbox.Base.Op.{◌>>=◌}
use drukbox.Base.Keeps.{Keeps, Keeps-bind, Keeps-if, Keeps-raise, Keeps-pass, Keeps-pure}
use drukbox.Providers.{Provider, lease_end}
use drukbox.Hosts.Model.{Host}
use drukbox.Hosts.World.{Env, World, Db, update_row, has_host, query, store, await_others, hours}
use drukbox.Hosts.Session.{on_hosts}
use drukbox.Hosts.Create.{HostRequest}
use drukbox.Hosts.Claim.{claimed, claim_values, claim_update, claim_candidate, try_claim}
use drukbox.Hosts.Request.{
  find_key, drop_key, key_holder, lookup_key, write_key, record_key, returned_to_pool,
  release_loser, check_provider_name, check_account_limit, warm_host, resolve_race, answered,
  fulfil, get_or_create_host, unclaimed, expired, new_key,
}
use drukbox.Hosts.Invariant.Defs.{IsSound, OthersKeep, Sound}
use drukbox.Hosts.Invariant.Rows.{Respects, Named, claimed-update}
use drukbox.Hosts.Invariant.Tables.{
  DistinctKeys-drop, HaveHosts-drop, DistinctKeys-append, HaveHosts-append_key,
}
use drukbox.Hosts.Invariant.Statements.{
  IsSound-update, IsSound-same, await_others-Sound, utc_now-Sound, query-Sound, store-Sound,
  vm_of-Sound, get_host-Sound, commit_host-Sound,
}
use drukbox.Hosts.Invariant.Operations.{lease_of-Sound, count_live_hosts-Sound, create_host-Sound}

-- The claim of a row that is unclaimed when its UPDATE runs.
abbrev when_unclaimed : (Host → Host) → Host → Host
when_unclaimed f h = if is_some h.claimed_at then h else f h

IsSound-claimed :
    (i : ℕ) (f : Host → Host)
    → Respects (when_unclaimed f)
    → Named (when_unclaimed f)
    → (db : Db) → IsSound db
    → IsSound (on_hosts (λ hs. (claimed i f hs).0) db)
IsSound-claimed i f r n db s =
    IsSound-same (on_hosts (update_row i (when_unclaimed f)) db) _
      (claimed-update i f db.hosts s.ids, refl) (IsSound-update i (when_unclaimed f) r n db s)

module _ (env : Env) (rely : OthersKeep env) where
  claim_values-Respects :
      (vm : Provider) (account : Option String) (now created : ℕ) (end : Option ℕ)
      → Respects (when_unclaimed (claim_values env vm account now created end))
  unfolding claim_values
  claim_values-Respects vm account now created end h = ground arith

  claim_values-Named :
      (vm : Provider) (account : Option String) (now created : ℕ) (end : Option ℕ)
      → Named (when_unclaimed (claim_values env vm account now created end))
  unfolding claim_values
  claim_values-Named vm account now created end h = ground arith

  claim_update-Sound :
      (i : ℕ) (f : Host → Host)
      → Respects (when_unclaimed f)
      → Named (when_unclaimed f)
      → Keeps Sound (claim_update env i f)
  unfolding claim_update
  claim_update-Sound i f r n = Keeps-bind _ _ (query-Sound env rely _) λ result.
      Keeps-bind _ _ (store-Sound env rely _ (IsSound-claimed i f r n))
        λ _. Keeps-bind _ _ (await_others-Sound env rely) (λ _. Keeps-pure _)

  claim_candidate-Sound :
      (account : Option String) (e : Option ℕ) (permanent : Bool) (now : ℕ) (vm : Provider)
      (o : Option Host)
      → Keeps Sound (claim_candidate env account e permanent now vm o)
  unfolding claim_candidate
  claim_candidate-Sound account e permanent now vm none = Keeps-pure _
  claim_candidate-Sound account e permanent now vm (some c) =
      Keeps-bind _ _ (lease_of-Sound env rely permanent e) λ end.
        claim_update-Sound c.id _ (claim_values-Respects vm account now c.created_at end)
          (claim_values-Named vm account now c.created_at end)

  pub try_claim-Sound :
      (account : Option String) (provider : String) (e : Option ℕ) (permanent : Bool)
      → Keeps Sound (try_claim env account provider e permanent)
  unfolding try_claim
  try_claim-Sound account provider e permanent = Keeps-bind _ _ (utc_now-Sound env rely) λ now.
      Keeps-bind _ _ (vm_of-Sound env rely _) λ vm.
        Keeps-bind _ _ (query-Sound env rely _) λ candidate.
          Keeps-bind _ _ (await_others-Sound env rely)
            λ _. claim_candidate-Sound account e permanent now vm candidate

  drop_key-IsSound :
      (key : String) (db : Db) → IsSound db → IsSound (record db { keys = drop_key key db.keys })
  drop_key-IsSound key db s = record {
    ids = s.ids;
    names = s.names;
    rows = s.rows;
    keys = DistinctKeys-drop key db.keys s.keys;
    held = HaveHosts-drop key db.hosts db.keys s.held;
  }

  key_holder-Sound :
      (key : String) (account : Option String) (o : Option Host)
      → Keeps Sound (key_holder env key account o)
  unfolding key_holder
  key_holder-Sound key account (some h) = Keeps-if _ _ _ (Keeps-raise _) (Keeps-pure _)
  key_holder-Sound key account none =
      Keeps-bind _ _ (store-Sound env rely _ (drop_key-IsSound key))
        λ _. Keeps-bind _ _ (await_others-Sound env rely) (λ _. Keeps-pure _)

  lookup_key-Sound :
      (key : String) (account : Option String) → Keeps Sound (lookup_key env key account)
  unfolding lookup_key
  lookup_key-Sound key account = Keeps-bind _ _ (query-Sound env rely _) (elim [
    | none ↦ Keeps-pure _
    | some k ↦ Keeps-bind _ _ (utc_now-Sound env rely) λ now.
        Keeps-bind _ _ (Keeps-if _ _ _ (get_host-Sound env rely k.host_id) (Keeps-pure _))
          (λ held. key_holder-Sound key account held)
  ])

  IsSound-new_key :
      (key : String) (h : Host) (now end : ℕ) (db : Db)
      → (is_some (find_key key db.keys) || not (has_host h.id db.hosts)) ≡ false
      → IsSound db
      → IsSound (record db { keys = db.keys ++ new_key key h.id now end ∷ [] })
  IsSound-new_key key h now end db free s = record {
    ids = s.ids;
    names = s.names;
    rows = s.rows;
    keys = DistinctKeys-append (new_key key h.id now end) db.keys (ground arith) s.keys;
    held = HaveHosts-append_key (new_key key h.id now end) db.hosts db.keys (ground arith) s.held;
  }

  write_key-Sound :
      (key : String) (h : Host) (now : ℕ) (w : World)
      → Sound w
      → Sound (write_key env key h now w).1
  unfolding write_key ◌>>=◌ query store await_others
  write_key-Sound key h now w s =
      elim (Bool-cases (is_some (find_key key w.db.keys) || not (has_host h.id w.db.hosts))) [
        | inl refused ↦ rw refused (rely w.turn w.db s)
        | inr free ↦ rw free (rely w.turn _ (IsSound-new_key key h now _ w.db free s))
      ]

  record_key-Sound : (key : String) (h : Host) → Keeps Sound (record_key env key h)
  unfolding record_key
  record_key-Sound key h =
      Keeps-bind _ _ (utc_now-Sound env rely) (λ now. record { at = write_key-Sound key h now })

  returned_to_pool-Sound : (now : ℕ) (h : Host) → Keeps Sound (returned_to_pool env now h)
  unfolding returned_to_pool
  returned_to_pool-Sound now h = Keeps-bind _ _ (vm_of-Sound env rely _) λ vm.
      let end =
        lease_end vm h.created_at (some (now + hours env.settings.pool_host_max_age_hours)) in
      commit_host-Sound env rely h.id (unclaimed end now) (λ x. (refl, λ r. ground arith))
        (λ x. refl)

  release_loser-Sound : (h : Host) → Keeps Sound (release_loser env h)
  unfolding release_loser
  release_loser-Sound h = Keeps-bind _ _ (get_host-Sound env rely h.id) (elim [
    | none ↦ Keeps-pass
    | some fresh ↦ Keeps-bind _ _ (utc_now-Sound env rely) λ now.
        Keeps-if _ _ _ (returned_to_pool-Sound now fresh)
          (commit_host-Sound env rely fresh.id (expired now) (λ x. (refl, λ r. r)) (λ x. refl))
  ])

  resolve_race-Sound :
      (key : String) (account : Option String) (h : Host)
      → Keeps Sound (resolve_race env key account h)
  unfolding resolve_race
  resolve_race-Sound key account h = Keeps-bind _ _ (release_loser-Sound h) λ _.
      Keeps-bind _ _ (lookup_key-Sound key account)
        (elim [ none ↦ Keeps-raise _ | some w ↦ Keeps-pure _ ])

  answered-Sound :
      (key account : Option String) (h : Host) → Keeps Sound (answered env key account h)
  unfolding answered
  answered-Sound none account h = Keeps-pure _
  answered-Sound (some key) account h =
      Keeps-bind _ _ (record_key-Sound key h)
        λ recorded. Keeps-if _ _ _ (Keeps-pure _) (resolve_race-Sound key account h)

  check_provider_name-Sound :
      (provider : Option String) → Keeps Sound (check_provider_name env provider)
  unfolding check_provider_name
  check_provider_name-Sound provider = Keeps-if _ _ _ (Keeps-raise _) Keeps-pass

  check_account_limit-Sound :
      (account : Option String) → Keeps Sound (check_account_limit env account)
  unfolding check_account_limit
  check_account_limit-Sound account =
      Keeps-if _ _ _
        (Keeps-bind _ _ (count_live_hosts-Sound env rely _)
          (λ live. Keeps-if _ _ _ (Keeps-raise _) Keeps-pass))
        Keeps-pass

  warm_host-Sound : (r : HostRequest) → Keeps Sound (warm_host env r)
  unfolding warm_host
  warm_host-Sound r =
      Keeps-if _ _ _ (try_claim-Sound r.service_account _ r.expires_at r.permanent) (Keeps-pure _)

  fulfil-Sound : (r : HostRequest) (key : Option String) → Keeps Sound (fulfil env r key)
  unfolding fulfil
  fulfil-Sound r key = Keeps-bind _ _ (check_account_limit-Sound r.service_account) λ _.
      Keeps-bind _ _ (warm_host-Sound r) (elim [
        | none ↦
            Keeps-bind _ _ (create_host-Sound env rely r false refl)
              (answered-Sound key r.service_account)
        | some h ↦ Keeps-bind _ _ (Keeps-pure h) (answered-Sound key r.service_account)
      ])

  -- Whatever the outside does and however it ends, `get_or_create_host` leaves the database sound.
  pub get_or_create_host-Sound :
      (r : HostRequest) (key : Option String) → Keeps Sound (get_or_create_host env r key)
  unfolding get_or_create_host
  get_or_create_host-Sound r none =
      Keeps-bind _ _ (check_provider_name-Sound r.provider) (λ _. fulfil-Sound r none)
  get_or_create_host-Sound r (some key) = Keeps-bind _ _ (check_provider_name-Sound r.provider) λ _.
      Keeps-bind _ _ (lookup_key-Sound key r.service_account)
        (elim [ some host ↦ Keeps-pure _ | none ↦ fulfil-Sound r (some key) ])
