-- ===== src/Exchange/Refreshable/Delivery.antt =====
-- What `RefreshableSecret.push` of src/secrets_exchange/secrets.py hands to the provider.
use drukbox.Base.{
  ℕ, ◌+◌, String, Bool, true, false, not, ◌&&◌, ◌||◌, ◌≡◌, refl, ap, Option, none, some, ◌∷◌, arith,
  Bool-cases, inl, inr, if◌then◌else◌,
}
use drukbox.Base.Op.{Result, ok, err, gets, pure, modify, raise, pass, ◌>>=◌}
use drukbox.Base.Keeps.{
  Keeps, keeps_rules, Outcome, Keeps-bind, Keeps-raise, Keeps-modify, Keeps-if, Keeps-pass,
}
use drukbox.Base.Yields.{Yields, Yields-bind, Yields-Keeps}
use mathlib.Core.Bool.{and-eq-true_iff}
use drukbox.Exchange.Secret.{Secret, Fault, key_error, Issuer, is_valid, first_retry}
use drukbox.Exchange.Refreshable.{
  Cell, Held, World, utc_now, retry_later, stored, settle, fetch_now, refresh, hand_over, offer,
  push, is_same, is_current, is_current,
}

-- The provider has what it had.
pub record Unpushed (before after : Cell) : Type 0 where
  pub pushed : after.held.pushed ≡ before.held.pushed
  pub delivered : after.delivered ≡ before.delivered

-- The provider has got the latest value, which was valid at a time and is another object than the
-- one that it had, and the wait is the first one again.
pub record Pushed (before : Cell) (now : ℕ) (after : Cell) : Type 0 where
  pub value : Held
  pub latest : after.held.latest ≡ some value
  pub pushed : after.held.pushed ≡ some value
  pub valid : is_valid value.secret now ≡ true
  pub fresh : is_same (some value) before.held.pushed ≡ false
  pub delivered : after.delivered ≡ value.secret.value ∷ before.delivered
  pub reset : after.held.wait ≡ first_retry

abbrev pub AfterPush : Cell → ℕ → Bool → Cell → Type 0
AfterPush before now true after = Pushed before now after
AfterPush before now false after = Unpushed before after

module _ (w : World) (before : Cell) where
  utc_now-Unpushed : Keeps (Unpushed before) (utc_now w)
  unfolding utc_now
  utc_now-Unpushed = record { at = λ s h. record { pushed = h.pushed; delivered = h.delivered } }

  retry_later-Unpushed : Keeps (Unpushed before) (retry_later w)
  unfolding retry_later
  retry_later-Unpushed =
      Keeps-bind _ _ utc_now-Unpushed
        (λ now. Keeps-modify _ (λ s h. record { pushed = h.pushed; delivered = h.delivered }))

  stored-Unpushed : (h : Held) → Keeps (Unpushed before) (stored w h)
  unfolding stored
  stored-Unpushed v = Keeps-modify _ (λ s h. record { pushed = h.pushed; delivered = h.delivered })

  settle-Unpushed : (n : ℕ) (r : Result Fault Secret) → Keeps (Unpushed before) (settle w n r)
  unfolding settle
  settle-Unpushed n (ok s) = stored-Unpushed _
  settle-Unpushed n (err key_error) = Keeps-raise _
  settle-Unpushed n (err _) = retry_later-Unpushed

  refresh-Unpushed : (issuer : Issuer) → Keeps (Unpushed before) (refresh w issuer)
  unfolding refresh fetch_now
  refresh-Unpushed issuer = search (keeps_rules, utc_now-Unpushed, settle-Unpushed) depth 12

  refused-Unpushed :
      (h : Held) (text : String) → Keeps (Unpushed before) (hand_over w h (some text))
  unfolding hand_over
  refused-Unpushed h text = search (keeps_rules, retry_later-Unpushed)

  hand_over-Delivers :
      (now : ℕ) (h : Held) (s : Cell) (answer : Option String)
      → s.held.latest ≡ some h
      → is_valid h.secret now ≡ true
      → is_same (some h) before.held.pushed ≡ false
      → Unpushed before s
      → Outcome (AfterPush before now) (λ e. Unpushed before) (hand_over w h answer s)
  unfolding hand_over modify raise ◌>>=◌ retry_later utc_now
  hand_over-Delivers now h s (some text) l v n u = record {
    pushed = u.pushed;
    delivered = u.delivered;
  }
  hand_over-Delivers now h s none l v n u = record {
    value = h;
    latest = l;
    pushed = refl;
    valid = v;
    fresh = n;
    delivered = ap (λ ds. h.secret.value ∷ ds) u.delivered;
    reset = refl;
  }

  offer-Delivers :
      (now : ℕ) (o : Option Held) (s : Cell)
      → s.held.latest ≡ o
      → Unpushed before s
      → Outcome (AfterPush before now) (λ e. Unpushed before) (offer w now o s)
  unfolding offer gets ◌>>=◌ pure
  offer-Delivers now none s l u = u
  offer-Delivers now (some h) s l u =
      elim (Bool-cases (not (is_same (some h) s.held.pushed) && is_valid h.secret now)) [
        | inr kept ↦ rw kept u
        | inl given ↦
            let (other, valid) =
              (and-eq-true_iff (not (is_same (some h) s.held.pushed)) (is_valid h.secret now)).0
                given in
            rw given (
              hand_over-Delivers now h s (w.deliver s.turn h.secret.value) l valid
                (ground (arith, u.pushed, other)) u)
      ]

  refreshed-Unpushed :
      (issuer : Issuer) (b : Bool) → Keeps (Unpushed before) (if b then refresh w issuer else pass)
  refreshed-Unpushed issuer b = Keeps-if b _ _ (refresh-Unpushed issuer) Keeps-pass

  -- The rest of `push` from its fetch on.
  offered-Yields :
      (now : ℕ)
      → Yields
          (Unpushed before)
          (AfterPush before now)
          (λ e. Unpushed before)
          (gets (λ c. c.held.latest) >>= λ latest. offer w now latest)
  unfolding ◌>>=◌ gets
  offered-Yields now = record { at = λ s u. offer-Delivers now s.held.latest s refl u }

-- When `push` returns true, the provider has got the latest value of the entry, once; that value was
-- valid when the push began, is another fetch than the one that the provider had, and the wait is
-- the first one again. When it returns false or raises, the provider got nothing.
pub push-Delivers :
    (w : World) (issuer : Issuer) (c : Cell)
    → Outcome (AfterPush c (c.clock + w.delay c.turn)) (λ e. Unpushed c) (push w issuer c)
unfolding push utc_now ◌>>=◌ gets
push-Delivers w issuer c =
    let now = c.clock + w.delay c.turn in
    let due = is_same c.held.latest c.held.pushed || not (is_current c.held.latest now) in
    (Yields-bind _ _ (Yields-Keeps _ (λ e s u. u) (refreshed-Unpushed w c issuer due))
        (λ _. offered-Yields w c now)).at
      _ (record { pushed = refl; delivered = refl })
