-- ===== src/Exchange/Refreshable.antt =====
-- src/secrets_exchange/secrets.py: `RefreshableSecret`, one entry's latest and pushed values, and
-- the wait between failed attempts. The cell holds the object with the clock that it reads and the
-- values that its provider took.
pub mod Backoff
pub mod Delivery
use drukbox.Base.{
  ℕ, suc, ◌+◌, ◌*◌, min, String, Bool, true, false, not, ◌&&◌, ◌||◌, Option, none, some, List, ◌∷◌,
  leb, ◌==◌, if◌then◌else◌, is_some,
}
use drukbox.Base.Op.{Result, ok, err, Op, pure, raise, gets, modify, pass, ◌>>=◌, ◌>>◌}
use drukbox.Exchange.Secret.{
  Secret, Issuer, Answer, Fault, issuer_error, bad_status, missing_secret, key_error, fetch,
  is_valid, is_stale, first_retry, longest_retry,
}

-- A fetched secret with the serial number of its fetch: two values are one object (`is`) when the
-- numbers are equal.
pub record Held : Type 0 where
  pub serial : ℕ
  pub secret : Secret

pub record Refreshable : Type 0 where
  pub latest : Option Held
  pub pushed : Option Held
  pub next_attempt : ℕ
  pub wait : ℕ

abbrev pub fresh : ℕ → Refreshable
fresh now = record { latest = none; pushed = none; next_attempt = now; wait = first_retry }

-- `delivered` has the values that the provider took, the last one first.
pub record Cell : Type 0 where
  pub held : Refreshable
  pub clock : ℕ
  pub turn : ℕ
  pub delivered : List String

-- What `push` and `refresh` raise: a failed fetch that is no `IssuerError`, or a failed delivery.
pub data Failure : Type 0 where
  fetch_failed : Fault → Failure
  delivery_failed : String → Failure

-- What the code relies on: the issuer's answer and the provider's at each turn, and how far the
-- clock goes on before the next reading.
pub record World : Type 0 where
  pub delay : ℕ → ℕ
  pub answer : ℕ → Answer
  pub deliver : ℕ → String → Option String

abbrev pub Act : Type 0 → Type 0
Act A = Op Cell Failure A

abbrev pub is_same : Option Held → Option Held → Bool
is_same none none = true
is_same (some a) (some b) = a.serial == b.serial
is_same _ _ = false

abbrev pub is_current : Option Held → ℕ → Bool
is_current none at = false
is_current (some h) at = is_valid h.secret at

abbrev pub nears_end : Option Held → ℕ → Bool
nears_end none at = true
nears_end (some h) at = is_stale h.secret at

-- `RefreshableSecret.is_due`
unfoldable pub is_due : Refreshable → ℕ → Bool
is_due r at = leb r.next_attempt at && nears_end r.pushed at

-- `RefreshableSecret.retry_later` on the object, at a reading of the clock.
unfoldable pub backed_off : Refreshable → ℕ → Refreshable
backed_off r now = record r { next_attempt = now + r.wait; wait = min (r.wait * 2) longest_retry }

module _ (w : World) where
  abbrev tick : Cell → Cell
  tick c = record c { clock = c.clock + w.delay c.turn; turn = suc c.turn }

  -- `datetime.now(UTC)`
  unfoldable pub utc_now : Act ℕ
  utc_now c = (ok (tick c).clock, tick c)

  unfoldable pub retry_later : Act (Unit {0})
  unfolding backed_off
  retry_later = do now ← utc_now; modify (λ c. record c { held = backed_off c.held now })

  unfoldable pub stored : Held → Act (Unit {0})
  stored h = modify (λ c. record c { held = record c.held { latest = some h; wait = first_retry } })

  -- An `IssuerError` starts the wait; a `KeyError` of a malformed interval goes on up.
  unfoldable pub settle : ℕ → Result Fault Secret → Act (Unit {0})
  unfolding stored retry_later
  settle serial (ok secret) = stored (record { serial = serial; secret = secret })
  settle serial (err (issuer_error text)) = retry_later
  settle serial (err (bad_status status)) = retry_later
  settle serial (err (missing_secret text)) = retry_later
  settle serial (err key_error) = raise (fetch_failed key_error)

  unfoldable pub fetch_now : Issuer → ℕ → Act (Unit {0})
  unfolding settle utc_now
  fetch_now issuer serial = do
    soon ← utc_now
    later ← utc_now
    settle serial (fetch issuer (w.answer serial) soon later)

  -- `RefreshableSecret.refresh`
  unfoldable pub refresh : Issuer → Act (Unit {0})
  unfolding fetch_now
  refresh issuer = do
    now ← utc_now
    attempt ← gets (λ c. c.held.next_attempt)
    serial ← gets (λ c. c.turn)
    if leb attempt now then fetch_now issuer serial else pass

  -- The hand-over to the provider: a `ProviderError` starts the wait and goes on up.
  unfoldable pub hand_over : Held → Option String → Act Bool
  unfolding retry_later
  hand_over h (some text) = do retry_later; raise (delivery_failed text)
  hand_over h none = do
    modify (λ c. record c {
      held = record c.held { pushed = some h; wait = first_retry };
      delivered = h.secret.value ∷ c.delivered;
    })
    pure true

  unfoldable pub offer : ℕ → Option Held → Act Bool
  unfolding hand_over
  offer now none = pure false
  offer now (some h) = do
    pushed ← gets (λ c. c.held.pushed)
    turn ← gets (λ c. c.turn)
    if not (is_same (some h) pushed) && is_valid h.secret now
        then hand_over h (w.deliver turn h.secret.value)
        else pure false

  -- `RefreshableSecret.push`
  unfoldable pub push : Issuer → Act Bool
  unfolding refresh offer
  push issuer = do
    now ← utc_now
    r ← gets (λ c. c.held)
    if is_same r.latest r.pushed || not (is_current r.latest now) then refresh issuer else pass
    latest ← gets (λ c. c.held.latest)
    offer now latest
