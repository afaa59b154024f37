-- ===== src/Hosts/KeyScan/Deadline.antt =====
-- The loop of `scan_known_hosts` in src/hosts/service.py ends.
use drukbox.Base.{
  ℕ, zero, suc, ◌+◌, ◌*◌, ◌/◌, ◌≤◌, String, false, ◌≡◌, Option, none, some, List, [], ◌∷◌, arith,
  leb, if◌then◌else◌, Bool-cases, inl, inr,
}
use drukbox.Base.Op.{Result, gets, raise, modify, ◌>>=◌}
use drukbox.Base.Keeps.{Outcome}
use drukbox.Base.Yields.{Yields, Yields-pure, Yields-raise, Yields-if, Yields-bind}
use drukbox.Providers.{Provider}
use drukbox.Hosts.Model.{Host, Error, host_key_scan}
use drukbox.Hosts.World.{Env, World, await_others, utc_now, sleep}
use drukbox.Hosts.KeyScan.{scan_result, scan_round, scan_rounds, scan_known_hosts, scan_targets}

-- The loop ended by itself: it is a failed scan that was raised, not the end of the rounds.
abbrev pub IsScanError : Error → Type 0
IsScanError (host_key_scan text) = Unit {0}
IsScanError _ = ⊥

record Past (time : ℕ) (w : World) : Type 0 where
  reached : time ≤ w.clock

module _ (env : Env) (time : ℕ) where
  abbrev Scans : {A : Type 0} → (World → Result Error A × World) → Type 0
  Scans m = Yields (Past time) (λ a. Past time) (λ e w. IsScanError e) m

  await_others-Scans : Scans (await_others env)
  unfolding await_others modify
  await_others-Scans = record { at = λ w h. record { reached = h.reached } }

  gets-Scans : Scans (gets (λ w. w.turn))
  unfolding gets
  gets-Scans = record { at = λ w h. h }

  scan_result-Scans : (o : Option (String × String)) → Scans (scan_result env o)
  unfolding scan_result
  scan_result-Scans none = Yields-raise _ (λ w h. tt)
  scan_result-Scans (some out) = Yields-pure out (λ w h. h)

  scan_round-Scans : (targets : List (String × ℕ)) → Scans (scan_round env targets)
  unfolding scan_round
  scan_round-Scans [] = Yields-pure _ (λ w h. h)
  scan_round-Scans ((host, port) ∷ targets) = Yields-bind _ _ await_others-Scans λ _.
      Yields-bind _ _ gets-Scans λ turn.
        Yields-bind _ _ (scan_result-Scans _)
          λ scanned. Yields-bind _ _ (scan_round-Scans targets) (λ rest. Yields-pure _ (λ w h. h))

  utc_now-Past :
      Yields
        (Past time)
        (λ now w. (time ≤ now) × (now ≤ w.clock))
        (λ e w. IsScanError e)
        (utc_now env)
  unfolding utc_now
  utc_now-Past = record { at = λ w h. (omega (arith, h.reached), omega arith) }

  sleep-Past :
      (n now : ℕ)
      → Yields (λ w. now ≤ w.clock) (λ a. Past (now + n)) (λ e w. IsScanError e) (sleep env n)
  unfolding sleep await_others modify ◌>>=◌
  sleep-Past n now = record { at = λ w h. record { reached = omega arith } }

abbrev Ends : {A : Type 0} → (World → Type 0) → (World → Result Error A × World) → Type 0
Ends P m = Yields P (λ a w. Unit {0}) (λ e w. IsScanError e) m

module _ (env : Env) where
  raised : (text : String) → Ends {A = String} (λ w. Unit {0}) (raise (host_key_scan text))
  raised text = Yields-raise _ (λ w h. tt)

  -- A round that has failed: at the deadline it raises, and before it goes on.
  failed-Ends :
      (time deadline : ℕ) (text : String) (more : World → Result Error String × World)
      → ((now : ℕ) → leb deadline now ≡ false → time ≤ now → Ends (λ w. now ≤ w.clock) more)
      → Ends
          (Past time)
          (utc_now env >>= λ now. if leb deadline now then raise (host_key_scan text) else more)
  failed-Ends time deadline text more go = Yields-bind _ _ (utc_now-Past env time) λ now. record {
    at = λ w h. elim (Bool-cases (leb deadline now)) [
      | inl over ↦ rw over ((raised text).at w tt)
      | inr early ↦ rw early ((go now early h.0).at w h.1)
    ];
  }

  -- With a round for each half second until the deadline, and one more.
  scan_rounds-Ends :
      (n : ℕ) (targets : List (String × ℕ)) (deadline time : ℕ)
      → deadline ≤ time + 500 * n
      → Ends (Past time) (scan_rounds env (suc n) targets deadline)
  unfolding scan_rounds
  scan_rounds-Ends zero targets deadline time room =
      Yields-bind _ _ (scan_round-Scans env time targets) λ scanned.
        Yields-if _ _ _ (Yields-pure _ (λ w h. tt))
          (failed-Ends time deadline _ _ (λ now early past. absurd (ground arith)))
  scan_rounds-Ends (suc n) targets deadline time room =
      Yields-bind _ _ (scan_round-Scans env time targets) λ scanned.
        Yields-if _ _ _ (Yields-pure _ (λ w h. tt)) (
          failed-Ends time deadline _ _ λ now early past.
            Yields-bind _ _ (sleep-Past env (now + 500) 500 now)
              λ _. scan_rounds-Ends n targets deadline (now + 500) (omega arith))

-- `scan_known_hosts` ends, whatever ssh-keyscan answers and however slowly the clock goes on: it
-- returns the keys or raises HostKeyScanError. The rounds of the model, one for each half second of
-- the provider's time limit and two more, are enough.
pub scan_known_hosts-Ends :
    (env : Env) (vm : Provider) (host : Host) (w : World)
    → Outcome (λ keys w'. Unit {0}) (λ e w'. IsScanError e) (scan_known_hosts env vm host w)
unfolding scan_known_hosts utc_now ◌>>=◌
scan_known_hosts-Ends env vm host w =
    let now = w.clock + env.delay w.turn in
    (scan_rounds-Ends env (suc (vm.bootstrap_ssh_timeout / 500)) (scan_targets host)
        (now + vm.bootstrap_ssh_timeout) now (omega arith)).at
      _ (record { reached = omega arith })
