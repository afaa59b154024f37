-- ===== src/Hosts/Invariant/Operations.antt =====
-- The operations of src/hosts/service.py, src/hosts/pool.py and src/hosts/janitor.py keep the
-- database sound.
use drukbox.Base.{
  ℕ, String, Bool, true, false, ◌||◌, not, ◌≡◌, refl, Option, none, some, arith, is_some,
}
use drukbox.Base.Keeps.{
  Keeps, keeps_rules, Keeps-bind, Keeps-if, Keeps-raise, Keeps-pass, Keeps-pure, Keeps-gets,
  Keeps-lift, Keeps-modify,
}
use drukbox.Providers.{Provider, lease_end}
use drukbox.Hosts.Model.{Host}
use drukbox.Hosts.World.{Env, Db}
use drukbox.Hosts.Create.{
  HostRequest, count_live_hosts, default_lease_expires_at, lease_of, check_request, image_of,
  template_used, new_host, check_limit, stamped, stamp_lease, finish_host, create_host,
}
use drukbox.Hosts.Invariant.Defs.{OthersKeep, Sound, row_ok}
use drukbox.Hosts.Invariant.Rows.{Respects, Named}
use drukbox.Hosts.Invariant.Statements.{
  IsSound-update, await_others-Sound, utc_now-Sound, query-Sound, store-Sound, vm_of-Sound,
  refresh-Sound, insert_host-Sound,
}
use drukbox.Hosts.Invariant.Provisioning.{provision-Sound}

module _ (env : Env) (rely : OthersKeep env) where
  pub count_live_hosts-Sound : (c : Host → Bool) → Keeps Sound (count_live_hosts env c)
  unfolding count_live_hosts
  count_live_hosts-Sound c =
      Keeps-bind _ _ (await_others-Sound env rely)
        λ _. Keeps-bind _ _ (utc_now-Sound env rely) (λ now. query-Sound env rely _)

  pub default_lease-Sound : Keeps Sound (default_lease_expires_at env)
  unfolding default_lease_expires_at
  default_lease-Sound = Keeps-bind _ _ (utc_now-Sound env rely) (λ now. Keeps-pure _)

  pub lease_of-Sound : (p : Bool) (e : Option ℕ) → Keeps Sound (lease_of env p e)
  unfolding lease_of
  lease_of-Sound true e = Keeps-pure _
  lease_of-Sound false (some end) = Keeps-pure _
  lease_of-Sound false none = Keeps-bind _ _ default_lease-Sound (λ end. Keeps-pure _)

  check_request-Sound : (vm : Provider) (r : HostRequest) → Keeps Sound (check_request env vm r)
  unfolding check_request
  check_request-Sound vm r = search keeps_rules depth 9

  image_of-Sound :
      (vm : Provider) (image : Option String) (t : Option ℕ) → Keeps Sound (image_of env vm image t)
  unfolding image_of
  image_of-Sound vm image none = Keeps-pure _
  image_of-Sound vm image (some wanted) = Keeps-bind _ _ (query-Sound env rely _) λ found.
      Keeps-bind _ _ (Keeps-lift _)
        λ usable. Keeps-bind _ _ (utc_now-Sound env rely) (λ now. Keeps-pure _)

  check_limit-Sound : (name : String) (o : Option ℕ) → Keeps Sound (check_limit env name o)
  unfolding check_limit
  check_limit-Sound name none = Keeps-pass
  check_limit-Sound name (some limit) =
      Keeps-bind _ _ (count_live_hosts-Sound _) λ live. Keeps-if _ _ _ (Keeps-raise _) Keeps-pass

  stamped-Respects : (initial : ℕ) (end : Option ℕ) (now : ℕ) → Respects (stamped initial end now)
  stamped-Respects initial end now h = ground arith

  stamped-Named : (initial : ℕ) (end : Option ℕ) (now : ℕ) → Named (stamped initial end now)
  stamped-Named initial end now h = ground arith

  stamp_lease-Sound :
      (vm : Provider) (h : Host) (initial : ℕ) (permanent : Bool) (e : Option ℕ)
      → Keeps Sound (stamp_lease env vm h initial permanent e)
  unfolding stamp_lease
  stamp_lease-Sound vm h initial permanent e = Keeps-bind _ _ (lease_of-Sound permanent e) λ end.
      Keeps-bind _ _ (utc_now-Sound env rely) λ now.
        let values = stamped initial (lease_end vm h.created_at end) now in
        Keeps-bind _ _
          (store-Sound env rely _ (
            IsSound-update h.id values (stamped-Respects initial _ now)
              (stamped-Named initial _ now)))
          (λ _. await_others-Sound env rely)

  template_used_same :
      (t : Option (ℕ × ℕ)) (db : Db)
      → ((template_used t db).hosts ≡ db.hosts) × ((template_used t db).keys ≡ db.keys)
  template_used_same none db = (refl, refl)
  template_used_same (some (wanted, now)) db = (refl, refl)

  -- Only a request of no service account may make a pool member.
  abbrev pub MayJoin : HostRequest → Bool → Type 0
  MayJoin r member = (not member || not (is_some r.service_account)) ≡ true

  new_host_ok :
      (vm : Provider) (r : HostRequest) (image : Option String) (member : Bool) (i now end : ℕ)
      → MayJoin r member
      → row_ok (new_host env vm r image member i now end) ≡ true
  unfolding new_host
  new_host_ok vm r image member i now end h = ground arith

  finish_host-Sound :
      (vm : Provider) (r : HostRequest) (initial : ℕ) (h : Host)
      → Keeps Sound (finish_host env vm r initial h)
  unfolding finish_host
  finish_host-Sound vm r initial h = Keeps-bind _ _ (provision-Sound env rely h) λ key.
      Keeps-bind _ _ (refresh-Sound env rely _) λ present.
        Keeps-bind _ _ (Keeps-if _ _ _ (Keeps-raise _) Keeps-pass) λ _.
          Keeps-bind _ _ (stamp_lease-Sound vm present initial r.permanent r.expires_at)
            (λ _. refresh-Sound env rely _)

  pub create_host-Sound :
      (r : HostRequest) (member : Bool) → MayJoin r member → Keeps Sound (create_host env r member)
  unfolding create_host
  create_host-Sound r member may = Keeps-bind _ _ (vm_of-Sound env rely _) λ vm.
      Keeps-bind _ _ (check_request-Sound vm r) λ _.
        Keeps-bind _ _ (image_of-Sound vm r.image r.template) λ image.
          Keeps-bind _ _ (Keeps-gets _) λ uid. Keeps-bind _ _ (Keeps-modify _ (λ w s. s)) λ _.
            Keeps-bind _ _ (utc_now-Sound env rely) λ now.
              Keeps-bind _ _ (check_limit-Sound _ _) λ _.
                Keeps-bind _ _
                  (insert_host-Sound env rely _ _ (template_used_same image.1)
                    (new_host_ok vm r image.0 member _ now _ may))
                  (λ _. finish_host-Sound vm r _ _)
