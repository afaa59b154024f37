-- ===== src/Hosts/KeyScan.antt =====
-- src/hosts/service.py: `scan_known_hosts`, which asks the host's addresses for their keys until
-- each has answered or the provider's time is over.
pub mod Deadline
use Prim.Native.String as Text
use text.Mathlib.Text.{find?}
use drukbox.Base.{
  ℕ, zero, suc, ◌+◌, ◌/◌, String, Bool, not, Option, none, some, List, [], ◌∷◌, ◌++◌, if◌then◌else◌,
  is_text, is_some, text_or, leb, all,
}
use drukbox.Base.Op.{pure, raise, gets, ◌>>=◌, ◌>>◌}
use drukbox.Providers.{Provider}
use drukbox.Hosts.Model.{Host, host_key_scan, out_of_rounds}
use drukbox.Hosts.World.{Env, Act, await_others, utc_now, sleep}

-- `needle in haystack`
abbrev contains : String → String → Bool
contains haystack needle = is_some (find? haystack needle)

abbrev text_append : String → String → String
text_append a b = Text.◌++◌ a b

-- `"; ".join(filter(None, errors)) or "empty output"`
abbrev join_errors : List String → String
join_errors [] = ""
join_errors (e ∷ es) =
    let rest = join_errors es in
    if not (is_text e)
    then rest
    else if is_text rest
    then text_append e (text_append "; " rest)
    else e

abbrev scan_detail : List String → String
scan_detail errors = text_or (some (join_errors errors)) "empty output"

-- The addresses that `scan_known_hosts` asks for keys.
unfoldable pub scan_targets : Host → List (String × ℕ)
scan_targets h =
    (elim h.internal_ssh_host [
      | none ↦ []
      | some internal ↦ if is_text internal then (internal, 22) ∷ [] else []
    ])
    ++ (if is_text h.external_ssh_host then (h.external_ssh_host, h.external_ssh_port) ∷ [] else [])

unfoldable pub all_answered : List (String × ℕ) → String → Bool
all_answered targets collected = all (λ t. contains collected t.0) targets

module _ (env : Env) where
  unfoldable pub scan_result : Option (String × String) → Act (String × String)
  scan_result none = raise (host_key_scan "could not run ssh-keyscan")
  scan_result (some out) = pure out

  -- One pass over the targets: what the scans wrote, and their complaints.
  unfoldable pub scan_round : List (String × ℕ) → Act (String × List String)
  unfolding scan_result
  scan_round [] = pure ("", [])
  scan_round ((ssh_host, ssh_port) ∷ targets) = do
    await_others env
    turn ← gets (λ w. w.turn)
    scanned ← scan_result (env.keyscan turn ssh_host ssh_port)
    rest ← scan_round targets
    pure (text_append scanned.0 rest.0, scanned.1 ∷ rest.1)

  unfoldable pub scan_rounds : ℕ → List (String × ℕ) → ℕ → Act String
  scan_rounds zero targets deadline = raise out_of_rounds
  scan_rounds (suc rounds) targets deadline = do
    scanned ← scan_round targets
    let more = scan_rounds rounds targets deadline
    if all_answered targets scanned.0 then pure scanned.0 else (do
      now ← utc_now env
      if leb deadline now
          then raise (
              host_key_scan
                (text_append "ssh-keyscan never returned host keys: " (scan_detail scanned.1)))
          else (do sleep env 500; more))

  -- `scan_known_hosts`; a pass that fails is followed by half a second of sleep, so these rounds
  -- reach the deadline.
  unfoldable pub scan_known_hosts : Provider → Host → Act String
  unfolding scan_rounds
  scan_known_hosts vm h = do
    now ← utc_now env
    scan_rounds (suc (suc (vm.bootstrap_ssh_timeout / 500))) (scan_targets h)
        (now + vm.bootstrap_ssh_timeout)
