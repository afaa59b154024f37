-- ===== src/Tests/Runs.antt =====
-- The theorems about single operations of the hosts, at concrete inputs.
use drukbox.Base.{◌≡◌, refl, true, false, none, some, [], ◌∷◌, arith}
use drukbox.Base.Op.{ok}
use drukbox.Base.Keeps.{Outcome}
use drukbox.Hosts.Model.{Host, HostStatus, host_key_scan}
use drukbox.Hosts.World.{World, IsIdle, find_host}
use drukbox.Hosts.KeyScan.{scan_known_hosts}
use drukbox.Hosts.KeyScan.Deadline.{IsScanError, scan_known_hosts-Ends}
use drukbox.Hosts.Provision.{provision, mark_failed}
use drukbox.Hosts.Trace.{Logged}
use drukbox.Hosts.Trace.Statuses.{Reaches, IsFinished, IsOrdered, follow}
use drukbox.Hosts.Trace.Provisioning.{provision-IsFinished}
use drukbox.Hosts.Trace.Teardown.{AfterDeletion, DidPart, torn_down, delete_host-torn_down}
use drukbox.Hosts.Lifecycle.{delete_host}
use drukbox.Hosts.Claim.{claimed, claim_values}
use drukbox.Hosts.Claim.Race.{IsClaim, claimed-once}
use drukbox.Hosts.Request.{record_key, get_or_create_host, new_key}
use drukbox.Hosts.Request.Replay.{
  IsHeld, ticked, replayed, get_or_create_host-replayed, record_key-IsHeld,
}
use drukbox.Hosts.Janitor.Failed.{IsReapable, mark_failed-IsReapable}
use drukbox.Tests.Samples.{
  docker, quiet, start, plain_request, warm_host, new_row, with_rows, empty_db,
}

quiet-IsIdle : IsIdle quiet
quiet-IsIdle n db = refl

scan_known_hosts-Ends_example :
    Outcome
      (λ keys w'. Unit {0})
      (λ e w'. IsScanError e)
      (scan_known_hosts quiet docker warm_host start)
scan_known_hosts-Ends_example = scan_known_hosts-Ends quiet docker warm_host start

new_row-Reaches : Reaches new_row.id HostStatus.provisioning (with_rows (new_row ∷ [])).log
unfolding follow
new_row-Reaches = refl

provision-IsFinished_example :
    Outcome
      (λ key. Logged (IsFinished 7))
      (λ e. Logged (IsOrdered 7))
      (provision quiet new_row (with_rows (new_row ∷ [])))
provision-IsFinished_example =
    provision-IsFinished quiet new_row (with_rows (new_row ∷ [])) new_row-Reaches

delete_host-torn_down_example :
    Outcome
      (AfterDeletion quiet [] warm_host)
      (λ e. Logged (DidPart [] (torn_down quiet warm_host)))
      (delete_host quiet false false false 7 (with_rows (warm_host ∷ [])))
delete_host-torn_down_example =
    delete_host-torn_down quiet false false false 7 warm_host (with_rows (warm_host ∷ [])) refl

abbrev claim : Host → Host
claim = claim_values quiet docker (some "ci") 1000 500 (some 9000)

claim-IsClaim : IsClaim claim
unfolding claim_values
claim-IsClaim h = (refl, refl)

claim_wins : (claimed 7 claim (warm_host ∷ [])).1 ≡ some (claim warm_host)
unfolding claimed
claim_wins = refl

claimed-once_example :
    ((claimed 7 claim (claimed 7 claim (warm_host ∷ [])).0).1 ≡ none)
    × (find_host 7 (claimed 7 claim (warm_host ∷ [])).0 ≡ some (claim warm_host))
    × ((old : Host) × (find_host 7 (warm_host ∷ []) ≡ some old)
        × (old.claimed_at ≡ none)
        × (claim warm_host ≡ claim old))
claimed-once_example =
    claimed-once 7 claim claim (warm_host ∷ []) (claim warm_host) claim-IsClaim (refl, tt)
      claim_wins

abbrev keyed : World
keyed = record start {
  db = record empty_db { hosts = warm_host ∷ []; keys = new_key "k" 7 900 5000 ∷ [] };
}

keyed-IsHeld : IsHeld quiet "k" warm_host keyed
keyed-IsHeld = record {
  row = new_key "k" 7 900 5000;
  recorded = refl;
  in_force = refl;
  alive = refl;
}

get_or_create_host-replayed_example :
    get_or_create_host quiet plain_request (some "k") keyed
    ≡ (replayed "k" warm_host (some "ci"), ticked quiet keyed)
get_or_create_host-replayed_example =
    get_or_create_host-replayed quiet plain_request "k" warm_host keyed refl keyed-IsHeld

record_key-IsHeld_example :
    ((record_key quiet "k" warm_host (with_rows (warm_host ∷ []))).0 ≡ ok true)
    × IsHeld quiet "k" warm_host (record_key quiet "k" warm_host (with_rows (warm_host ∷ []))).1
record_key-IsHeld_example =
    record_key-IsHeld quiet "k" warm_host (with_rows (warm_host ∷ [])) quiet-IsIdle refl refl
      (omega arith)

mark_failed-IsReapable_example :
    ((mark_failed quiet 7 (λ h. h) (host_key_scan "empty output") (with_rows (new_row ∷ []))).0
      ≡ ok tt)
    × ((row : Host) × (find_host 7
            (mark_failed quiet 7
              (λ h. h)
              (host_key_scan "empty output")
              (with_rows (new_row ∷ []))).1.db.hosts
          ≡ some row)
        × IsReapable quiet (host_key_scan "empty output") 1011 row)
mark_failed-IsReapable_example =
    mark_failed-IsReapable quiet (λ h. h) (host_key_scan "empty output") new_row
      (with_rows (new_row ∷ [])) 1011 quiet-IsIdle (λ h. refl) refl (omega arith)
