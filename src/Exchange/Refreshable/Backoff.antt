-- ===== src/Exchange/Refreshable/Backoff.antt =====
-- The wait between attempts of one entry.
use drukbox.Base.{String, ℕ, ◌≤◌, arith, Option, none, some}
use drukbox.Base.Op.{Result, ok, err, ◌>>=◌, modify}
use drukbox.Base.Keeps.{Keeps, keeps_rules, Keeps-modify, Keeps-raise, Keeps-bind, Keeps-pure}
use drukbox.Exchange.Secret.{Fault, key_error, Secret}
use drukbox.Exchange.Secret.{Issuer, first_retry, longest_retry}
use drukbox.Exchange.Refreshable.{
  Cell, World, Held, utc_now, retry_later, stored, settle, refresh, hand_over, offer, push,
  backed_off, fetch_now,
}

-- The wait lies between the first and the longest one.
pub record IsPaced (c : Cell) : Type 0 where
  pub above : first_retry ≤ c.held.wait
  pub below : c.held.wait ≤ longest_retry

module _ (w : World) where
  utc_now-IsPaced : Keeps IsPaced (utc_now w)
  unfolding utc_now
  utc_now-IsPaced = record { at = λ s h. record { above = h.above; below = h.below } }

  backed_off-IsPaced :
      (now : ℕ) (c : Cell) → IsPaced c → IsPaced (record c { held = backed_off c.held now })
  unfolding backed_off
  backed_off-IsPaced now c h = ground arith

  retry_later-IsPaced : Keeps IsPaced (retry_later w)
  unfolding retry_later
  retry_later-IsPaced =
      Keeps-bind _ _ utc_now-IsPaced (λ now. Keeps-modify _ (backed_off-IsPaced now))

  stored-IsPaced : (h : Held) → Keeps IsPaced (stored w h)
  unfolding stored ◌>>=◌
  stored-IsPaced h = record { at = λ s p. ground arith }

  settle-IsPaced : (n : ℕ) (r : Result Fault Secret) → Keeps IsPaced (settle w n r)
  unfolding settle
  settle-IsPaced n (ok s) = stored-IsPaced _
  settle-IsPaced n (err key_error) = Keeps-raise _
  settle-IsPaced n (err _) = retry_later-IsPaced

  ruleset paced = (keeps_rules, utc_now-IsPaced, retry_later-IsPaced, settle-IsPaced)

  refresh-IsPaced : (issuer : Issuer) → Keeps IsPaced (refresh w issuer)
  unfolding refresh fetch_now
  refresh-IsPaced issuer = search paced depth 12

  hand_over-IsPaced : (h : Held) (o : Option String) → Keeps IsPaced (hand_over w h o)
  unfolding hand_over modify
  hand_over-IsPaced h (some text) = search paced
  hand_over-IsPaced h none =
      Keeps-bind _ _ (record { at = λ s p. record { above = omega arith; below = omega arith } })
        (λ _. Keeps-pure _)

  offer-IsPaced : (now : ℕ) (o : Option Held) → Keeps IsPaced (offer w now o)
  unfolding offer
  offer-IsPaced now none = search paced
  offer-IsPaced now (some h) = search (paced, hand_over-IsPaced) depth 12

  push-Keeps : (issuer : Issuer) → Keeps IsPaced (push w issuer)
  unfolding push
  push-Keeps issuer = search (paced, refresh-IsPaced, offer-IsPaced) depth 12

-- However a push ends, the wait for the next attempt stays between the first one and the longest
-- one, if it was there before.
pub push-IsPaced :
    (w : World) (issuer : Issuer) (c : Cell) → IsPaced c → IsPaced (push w issuer c).1
push-IsPaced w issuer c h = (push-Keeps w issuer).at c h
