-- ===== src/Hosts/Janitor/Failed.antt =====
-- A host that failed is left to the janitor (src/hosts/service.py, src/hosts/janitor.py).
use drukbox.Base.{
  ℕ, ◌+◌, ◌<◌, true, false, ◌≡◌, refl, ap, ◌∙◌, some, List, [], ◌∷◌, arith, ◌==◌, Bool-cases, inl,
  inr,
}
use drukbox.Base.Op.{ok, ◌>>=◌}
use drukbox.Hosts.Model.{Host, HostStatus, Error, failure_text, is_error}
use drukbox.Hosts.World.{
  Env, World, IsIdle, query, store, utc_now, await_others, note, find_host, has_host, update_row,
}
use drukbox.Hosts.Session.{commit_host, commit_status}
use drukbox.Hosts.Provision.{mark_failed}
use drukbox.Hosts.Lifecycle.{is_spared}
use drukbox.Hosts.Janitor.{has_expired}

find_host-update_row :
    (i : ℕ) (f : Host → Host) (hs : List Host) (h : Host)
    → ((x : Host) → (f x).id ≡ x.id)
    → find_host i hs ≡ some h
    → (find_host i (update_row i f hs) ≡ some (f h)) × (has_host i hs ≡ true)
find_host-update_row i f [] h same there = absurd (ground arith)
find_host-update_row i f (x ∷ hs) h same there = elim (Bool-cases (x.id == i)) [
  | inl found ↦ ground (arith, found, same x)
  | inr other ↦ ground (arith, other, find_host-update_row i f hs h same)
]

-- What the failure leaves in the row.
pub record IsReapable (env : Env) (exc : Error) (later : ℕ) (row : Host) : Type 0 where
  pub errored : is_error row.status ≡ true
  pub text : row.last_error ≡ failure_text exc
  pub picked : has_expired later row ≡ true
  pub taken : is_spared env false true later row ≡ false

-- A failed provision leaves its host in the database, in ERROR, with the failure's text; and every
-- sweep of the janitor that reads the clock after the failure picks the host, and does not spare
-- it. The other requests are idle here, and what is pending on the instance keeps its id.
pub mark_failed-IsReapable :
    (env : Env) (pending : Host → Host) (exc : Error) (host : Host) (w : World) (later : ℕ)
    → IsIdle env
    → ((h : Host) → (pending h).id ≡ h.id)
    → find_host host.id w.db.hosts ≡ some host
    → w.clock + env.delay w.turn < later
    → ((mark_failed env host.id pending exc w).0 ≡ ok tt)
      × ((row : Host) × (find_host host.id (mark_failed env host.id pending exc w).1.db.hosts
            ≡ some row)
          × IsReapable env exc later row)
unfolding mark_failed commit_status commit_host query store utc_now await_others note is_spared
    ◌>>=◌
mark_failed-IsReapable env pending exc host w later idle same there after =
    let now = w.clock + env.delay w.turn in
    let failed = λ (h : Host). record (pending h) {
      status = HostStatus.error;
      last_error = failure_text exc;
      expires_at = some now;
      updated_at = now;
    } in
    let (found, present) = find_host-update_row host.id failed w.db.hosts host same there in
    rw present (
      refl,
      (
        failed host,
        ap (λ db. find_host host.id db.hosts) (idle _ _) ∙ found,
        record { errored = refl; text = refl; picked = ground arith; taken = ground arith },
      ),
    )
