-- ===== src/Hosts/Invariant/Statements.antt =====
-- Every statement of src/hosts/service.py keeps the database sound.
use drukbox.Base.{
  ℕ, String, true, false, not, ◌&&◌, ◌||◌, ◌≡◌, refl, Option, none, some, [], ◌∷◌, ◌++◌, arith,
  ◌==◌, str_eq, any, Bool-cases, inl, inr,
}
use drukbox.Base.Op.{Result, ◌>>=◌}
use drukbox.Base.Keeps.{Keeps, keeps_rules, Keeps-bind, Keeps-if, Keeps-raise}
use drukbox.Providers.{ProviderError}
use drukbox.Hosts.Model.{Host, HostStatus}
use drukbox.Hosts.World.{
  Env, World, Db, Event, NetworkFault, await_others, utc_now, note, query, store, sleep, update_row,
  has_host, has_name, remove_row, remove_keys,
}
use drukbox.Hosts.Session.{
  vm_of, provider_call, network_call, get_host, refreshed, refresh, commit_host, commit_status,
  commit_named, insert_host, delete_row, on_hosts,
}
use drukbox.Hosts.Invariant.Defs.{IsSound, OthersKeep, Sound, row_ok}
use drukbox.Hosts.Invariant.Rows.{
  Respects, Named, IsFree, DistinctIds-update, DistinctNames-update, DistinctNames-rename,
  rows-update, HaveHosts-update,
}
use drukbox.Hosts.Invariant.Tables.{
  DistinctIds-append, DistinctNames-append, rows-append, HaveHosts-append, DistinctIds-remove,
  DistinctNames-remove, rows-remove, HaveHosts-remove, DistinctKeys-remove,
}

pub IsSound-update :
    (i : ℕ) (f : Host → Host)
    → Respects f
    → Named f
    → (db : Db) → IsSound db
    → IsSound (on_hosts (update_row i f) db)
IsSound-update i f r n db s = record {
  ids = DistinctIds-update i f r db.hosts s.ids;
  names = DistinctNames-update i f r n db.hosts s.names;
  rows = rows-update i f r db.hosts s.rows;
  keys = s.keys;
  held = HaveHosts-update i f r db.hosts db.keys s.held;
}

IsSound-insert :
    (h : Host)
    → row_ok h ≡ true
    → (db : Db) → IsSound db
    → (has_host h.id db.hosts || has_name h.name db.hosts) ≡ false
    → IsSound (on_hosts (λ hs. hs ++ h ∷ []) db)
IsSound-insert h fine db s free = record {
  ids = DistinctIds-append h db.hosts (ground arith) s.ids;
  names = DistinctNames-append h db.hosts (ground arith) s.names;
  rows = rows-append h db.hosts fine s.rows;
  keys = s.keys;
  held = HaveHosts-append h db.hosts db.keys s.held;
}

IsSound-delete :
    (i : ℕ) (db : Db)
    → IsSound db
    → IsSound (record db { hosts = remove_row i db.hosts; keys = remove_keys i db.keys })
IsSound-delete i db s = record {
  ids = DistinctIds-remove i db.hosts s.ids;
  names = DistinctNames-remove i db.hosts s.names;
  rows = rows-remove i db.hosts s.rows;
  keys = DistinctKeys-remove i db.keys s.keys;
  held = HaveHosts-remove i db.hosts db.keys s.held;
}

-- Two databases with the same hosts and keys.
pub IsSound-same :
    (db other : Db) → (other.hosts ≡ db.hosts) × (other.keys ≡ db.keys) → IsSound db → IsSound other
IsSound-same db other (hosts, keys) s = record {
  ids = rw hosts s.ids;
  names = rw hosts s.names;
  rows = rw hosts s.rows;
  keys = rw keys s.keys;
  held = rw (hosts, keys) s.held;
}

module _ (env : Env) (rely : OthersKeep env) where
  pub await_others-Sound : Keeps Sound (await_others env)
  unfolding await_others ◌>>=◌
  await_others-Sound = record { at = λ w s. rely w.turn w.db s }

  pub utc_now-Sound : Keeps Sound (utc_now env)
  unfolding utc_now
  utc_now-Sound = record { at = λ w s. s }

  pub note-Sound : (e : Event) → Keeps Sound (note env e)
  unfolding note ◌>>=◌
  note-Sound e = record { at = λ w s. s }

  pub query-Sound : {A : Type 0} (f : Db → A) → Keeps Sound (query env f)
  unfolding query ◌>>=◌
  query-Sound f = record { at = λ w s. s }

  pub store-Sound :
      (f : Db → Db) → ((db : Db) → IsSound db → IsSound (f db)) → Keeps Sound (store env f)
  unfolding store ◌>>=◌
  store-Sound f k = record { at = λ w s. k w.db s }

  pub sleep-Sound : (n : ℕ) → Keeps Sound (sleep env n)
  unfolding sleep ◌>>=◌
  sleep-Sound n = record { at = λ w s. rely w.turn w.db s }

  ruleset statement_rules =
      (keeps_rules, await_others-Sound, utc_now-Sound, note-Sound, query-Sound)

  pub vm_of-Sound : (name : Option String) → Keeps Sound (vm_of env name)
  unfolding vm_of
  vm_of-Sound name = search keeps_rules

  pub provider_call-Sound :
      {A : Type 0} (r : Result ProviderError A) → Keeps Sound (provider_call env r)
  unfolding provider_call
  provider_call-Sound r = search statement_rules

  pub network_call-Sound :
      {A : Type 0} (r : Result NetworkFault A) → Keeps Sound (network_call env r)
  unfolding network_call
  network_call-Sound r = search statement_rules

  pub get_host-Sound : (i : ℕ) → Keeps Sound (get_host env i)
  unfolding get_host
  get_host-Sound i = search statement_rules

  refreshed-Sound : (h : Host) (o : Option Host) → Keeps Sound (refreshed env h o)
  unfolding refreshed
  refreshed-Sound h none = search keeps_rules
  refreshed-Sound h (some x) = search keeps_rules

  pub refresh-Sound : (h : Host) → Keeps Sound (refresh env h)
  unfolding refresh
  refresh-Sound h = search (keeps_rules, get_host-Sound, refreshed-Sound)

  pub commit_host-Sound :
      (i : ℕ) (f : Host → Host) → Respects f → Named f → Keeps Sound (commit_host env i f)
  unfolding commit_host
  commit_host-Sound i f r n = Keeps-bind _ _ (query-Sound _) λ present.
      Keeps-bind _ _ (Keeps-if present _ _ (store-Sound _ (IsSound-update i f r n)) (Keeps-raise _))
        (λ _. await_others-Sound)

  pub commit_status-Sound :
      (i : ℕ) (status : HostStatus) (f : Host → Host)
      → Respects (λ h. record (f h) { status = status })
      → Named f
      → Keeps Sound (commit_status env i status f)
  unfolding commit_status
  commit_status-Sound i status f r n =
      search (statement_rules, commit_host-Sound i (λ h. record (f h) { status = status }) r n)

  -- A commit of a row with a name that no other row has.
  rename-Sound :
      (i : ℕ) (status : HostStatus) (name : String) (f : Host → Host)
      → Respects (λ h. record (f h) { status = status; name = name })
      → (w : World) → IsFree i name w.db.hosts
      → Sound w
      → Sound (commit_status env i status (λ h. record (f h) { name = name }) w).1
  unfolding commit_status commit_host ◌>>=◌ query store await_others note
  rename-Sound i status name f r w free s = elim (Bool-cases (has_host i w.db.hosts)) [
    | inr absent ↦ rw absent s
    | inl present ↦ rw present (
        rely w.turn _ (record {
          ids = DistinctIds-update i _ r w.db.hosts s.ids;
          names = DistinctNames-rename i name _ (λ h. refl) w.db.hosts s.ids s.names free;
          rows = rows-update i _ r w.db.hosts s.rows;
          keys = s.keys;
          held = HaveHosts-update i _ r w.db.hosts w.db.keys s.held;
        }))
  ]

  pub commit_named-Sound :
      (i : ℕ) (status : HostStatus) (name : String) (f : Host → Host)
      → Respects (λ h. record (f h) { status = status; name = name })
      → Keeps Sound (commit_named env i status name f)
  unfolding commit_named ◌>>=◌ query
  commit_named-Sound i status name f r = record {
    at = λ w s. elim (Bool-cases (any (λ h. str_eq h.name name && not (h.id == i)) w.db.hosts)) [
      | inl taken ↦ rw taken s
      | inr free ↦ rw free (rename-Sound i status name f r w free s)
    ];
  }

  pub insert_host-Sound :
      (also : Db → Db) (h : Host)
      → ((db : Db) → ((also db).hosts ≡ db.hosts) × ((also db).keys ≡ db.keys))
      → row_ok h ≡ true
      → Keeps Sound (insert_host env also h)
  unfolding insert_host ◌>>=◌ query store await_others
  insert_host-Sound also h same fine = record {
    at = λ w s. elim (Bool-cases (has_host h.id w.db.hosts || has_name h.name w.db.hosts)) [
      | inl taken ↦ rw taken s
      | inr free ↦ rw free (
          rely w.turn _ (
            IsSound-insert h fine (also w.db) (IsSound-same w.db (also w.db) (same w.db) s)
              (rw (same w.db).0 free)))
    ];
  }

  pub delete_row-Sound : (i : ℕ) → Keeps Sound (delete_row env i)
  unfolding delete_row
  delete_row-Sound i =
      Keeps-bind _ _ (store-Sound _ (IsSound-delete i))
        λ _. Keeps-bind _ _ (note-Sound _) (λ _. await_others-Sound)
