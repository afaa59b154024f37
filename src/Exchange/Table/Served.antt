-- ===== src/Exchange/Table/Served.antt =====
-- What `Secrets.current` of src/secrets_exchange/secrets.py serves.
use drukbox.Base.{
  ℕ, ◌≤◌, String, Bool, true, ◌≡◌, refl, Option, none, some, arith, Bool-cases, Option-cases, inl,
  inr,
}
use drukbox.Base.Op.{Result, ok, err, gets, pure, modify, ◌>>=◌}
use drukbox.Base.Keeps.{
  Keeps, keeps_rules, Outcome, Keeps-bind, Keeps-modify, Keeps-raise, Keeps-if, Keeps-pass,
  Keeps-gets, Keeps-pure,
}
use drukbox.Base.Yields.{Yields, Yields-bind, Yields-from, Yields-Keeps, Yields-pure, Yields-raise}
use drukbox.HostSecrets.Catalog.{Entry}
use drukbox.Hosts.Model.{Host}
use drukbox.Exchange.Secret.{Fault, key_error, Secret, Issuer, is_valid}
use drukbox.Exchange.Refreshable as One
use drukbox.Exchange.Refreshable.{Cell, Held, World}
use drukbox.Exchange.Table.{
  Table, Slot, Act, on_slot, cell_of, now, assign, slot_of, refresh_in_background, served, fetched,
  renewed_if, current_of, issuer_of, current,
}

record Past (time : ℕ) (c : Cell) : Type 0 where
  reached : time ≤ c.clock

module _ (w : World) (time : ℕ) where
  utc_now-Past : Keeps (Past time) (One.utc_now w)
  unfolding One.utc_now
  utc_now-Past = record { at = λ s h. record { reached = omega (arith, h.reached) } }

  retry_later-Past : Keeps (Past time) (One.retry_later w)
  unfolding One.retry_later
  retry_later-Past =
      Keeps-bind _ _ utc_now-Past (λ at. Keeps-modify _ (λ s h. record { reached = h.reached }))

  stored-Past : (h : Held) → Keeps (Past time) (One.stored w h)
  unfolding One.stored
  stored-Past v = Keeps-modify _ (λ s h. record { reached = h.reached })

  settle-Past : (n : ℕ) (r : Result Fault Secret) → Keeps (Past time) (One.settle w n r)
  unfolding One.settle
  settle-Past n (ok s) = stored-Past _
  settle-Past n (err key_error) = Keeps-raise _
  settle-Past n (err _) = retry_later-Past

  refresh-Past : (issuer : Issuer) → Keeps (Past time) (One.refresh w issuer)
  unfolding One.refresh One.fetch_now
  refresh-Past issuer = search (keeps_rules, utc_now-Past, settle-Past) depth 12

-- The clock of the table has reached a time.
record Reached (time : ℕ) (t : Table) : Type 0 where
  reached : time ≤ t.clock

-- A secret that was valid at a reading of the clock since the time.
abbrev pub IsServed : ℕ → Secret → Table → Type 0
IsServed time secret t = (at : ℕ) × (time ≤ at) × (at ≤ t.clock) × (is_valid secret at ≡ true)

module _ (w : World) (time : ℕ) where
  on_slot-Reached :
      (s : Slot) (issuer : Issuer) → Keeps (Reached time) (on_slot s (One.refresh w issuer))
  unfolding on_slot
  on_slot-Reached s issuer = record {
    at = λ t h. record {
      reached =
          ((refresh-Past w time issuer).at (cell_of t s) (record { reached = h.reached })).reached;
    };
  }

  abbrev Serves : Act Secret → Type 0
  Serves m = Yields (Reached time) (IsServed time) (λ e t. Unit {0}) m

  Serves-after :
      {A : Type 0} (m : Act A) (f : A → Act Secret)
      → Keeps (Reached time) m
      → ((a : A) → Serves (f a))
      → Serves (m >>= f)
  Serves-after m f k y = Yields-bind m f (Yields-Keeps m (λ e s h. tt) k) y

  now-Yields :
      Yields (Reached time) (λ at t. (time ≤ at) × (at ≤ t.clock)) (λ e t. Unit {0}) (now w)
  unfolding now
  now-Yields = record { at = λ t h. (omega (arith, h.reached), omega arith) }

  issuer_of-Keeps : (P : Table → Type 0) (entry : Entry) → Keeps P (issuer_of w entry)
  unfolding issuer_of
  issuer_of-Keeps P entry = elim (Option-cases entry.issuer) [
    | inl missing ↦ rw missing (Keeps-raise _)
    | inr (issuer, there) ↦ rw there (Keeps-pure _)
  ]

  served-Yields :
      (latest : Option Held) (at : ℕ)
      → Yields
          (λ t. (time ≤ at) × (at ≤ t.clock))
          (IsServed time)
          (λ e t. Unit {0})
          (served w latest at)
  unfolding served
  served-Yields none at = Yields-raise _ (λ t h. tt)
  served-Yields (some h) at = elim (Bool-cases (is_valid h.secret at)) [
    | inl valid ↦ rw valid (Yields-pure _ (λ t p. (at, p.0, p.1, valid)))
    | inr expired ↦ rw expired (Yields-raise _ (λ t p. tt))
  ]

  fetched-Serves : (s : Slot) (entry : Entry) → Serves (fetched w s entry)
  unfolding fetched
  fetched-Serves s entry = Serves-after _ _ (issuer_of-Keeps (Reached time) entry) λ issuer.
      Serves-after _ _ (on_slot-Reached s issuer) λ _. Yields-bind _ _ now-Yields λ at.
        Yields-bind _ _ (Yields-Keeps _ (λ e t p. tt) (Keeps-gets _))
          λ latest. served-Yields latest at

  renewed_if-Keeps :
      (P : Table → Type 0) (stale : Bool) (s : Slot) (entry : Entry)
      → ((before after : Table) → after.clock ≡ before.clock → P before → P after)
      → Keeps P (renewed_if w stale s entry)
  unfolding renewed_if refresh_in_background
  renewed_if-Keeps P stale s entry same =
      Keeps-if stale _ _
        (Keeps-bind _ _ (issuer_of-Keeps P entry)
          λ issuer. Keeps-if s.fetching _ _ Keeps-pass (Keeps-modify _ (λ t p. same t _ refl p)))
        Keeps-pass

  current_of-Serves : (s : Slot) (entry : Entry) → Serves (current_of w s entry)
  unfolding current_of
  current_of-Serves s entry = Yields-bind _ _ now-Yields λ at. elim (Option-cases s.held.latest) [
    | inl empty ↦ rw empty (
        Yields-from _ (λ t p. record { reached = omega (arith, p.0, p.1) })
          (fetched-Serves s entry))
    | inr (h, held) ↦ rw held (elim (Bool-cases (is_valid h.secret at)) [
      | inr expired ↦ rw expired (
          Yields-from _ (λ t p. record { reached = omega (arith, p.0, p.1) })
            (fetched-Serves s entry))
      | inl valid ↦ rw valid (
          Yields-bind _ _
            (Yields-Keeps _ (λ e t p. tt)
              (renewed_if-Keeps (λ t. (time ≤ at) × (at ≤ t.clock)) _ s entry
                (λ before after same p. (p.0, omega (arith, same, p.1)))))
            λ _. Yields-pure h.secret (λ t p. (at, p.0, p.1, valid)))
    ])
  ]

  assign-Reached : (i : ℕ) (service : String) → Keeps (Reached time) (assign w i service)
  unfolding assign now modify ◌>>=◌ gets pure
  assign-Reached i service = record { at = λ t h. record { reached = omega (arith, h.reached) } }

  slot_of-Reached : (i : ℕ) (service : String) → Keeps (Reached time) (slot_of w i service)
  unfolding slot_of
  slot_of-Reached i service =
      Keeps-bind _ _ (Keeps-gets _)
        (elim [ some s ↦ Keeps-pure s | none ↦ assign-Reached i service ])

-- The static value, or a secret that was valid at a reading of the clock since the time.
abbrev pub IsEntryServed : Entry → ℕ → Secret → Table → Type 0
IsEntryServed entry time secret t = elim entry.value [
  | some value ↦ secret.value ≡ value
  | none ↦ IsServed time secret t
]

-- `Secrets.current` of an entry with a static value serves that value. Of any other entry it serves
-- a secret that was valid at a reading of the clock during the call, or it raises.
pub current-IsEntryServed :
    (w : World) (host : Host) (service : String) (entry : Entry) (t : Table)
    → Outcome (IsEntryServed entry t.clock) (λ e t'. Unit {0}) (current w host service entry t)
unfolding current pure
current-IsEntryServed w host service entry t = elim (Option-cases entry.value) [
  | inr (value, static) ↦ rw static refl
  | inl fetched ↦ rw fetched (
      (Serves-after w t.clock _ _ (slot_of-Reached w t.clock host.id service)
          λ s. current_of-Serves w t.clock s entry).at
        t (record { reached = omega arith }))
]
