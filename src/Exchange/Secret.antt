-- ===== src/Exchange/Secret.antt =====
-- src/secrets_exchange/secrets.py: what an issuer answers, and the secret that is read from it.
-- Times are milliseconds. The HTTP client is not modelled: `Answer` lists what it can hand back.
pub mod Usable
use Prim.Native.Char.{code}
use Prim.Native.String as Text
use drukbox.Base.{
  ℕ, ◌+◌, ◌-◌, ◌*◌, ◌≡◌, refl, String, Bool, true, false, ◌&&◌, Option, none, some, List, [], ◌∷◌,
  ltb, leb, ◌==◌, if◌then◌else◌, is_text,
}
use drukbox.Base.Op.{Result, ok, err}

-- `MARGIN`, `FIRST_RETRY` and `LONGEST_RETRY`
abbrev pub margin : ℕ
margin = 60000

abbrev pub first_retry : ℕ
first_retry = 5000

abbrev pub longest_retry : ℕ
longest_retry = 60000

pub record Secret : Type 0 where
  pub value : String
  pub expires_at : Option ℕ

unfoldable pub is_valid : Secret → ℕ → Bool
is_valid secret at = elim secret.expires_at [ none ↦ true | some end ↦ ltb at end ]

unfoldable pub is_stale : Secret → ℕ → Bool
is_stale secret at = elim secret.expires_at [ none ↦ false | some end ↦ leb (end - margin) at ]

pub record Issuer : Type 0 where
  pub url : String
  pub headers : List (String × String)
  pub refresh : String

-- The `expires_at` member of an answer: none or null, a time, or what is no aware datetime.
pub data ExpiryField : Type 0 where
  absent : ExpiryField
  at_time : ℕ → ExpiryField
  malformed : ExpiryField

-- A body is no JSON, or an object; `value` is none where the member is missing or no string.
pub data Body : Type 0 where
  not_json : Body
  document : (detail value : Option String) → ExpiryField → Body

-- What `client.get` raises or returns.
pub data Answer : Type 0 where
  local_protocol_error : Answer
  http_error : String → Answer
  response : ℕ → Body → Answer

pub data Fault : Type 0 where
  issuer_error : String → Fault
  -- the `IssuerError` with the text "status" and the number
  bad_status : ℕ → Fault
  missing_secret : String → Fault
  key_error : Fault

abbrev is_client_error : ℕ → Bool
is_client_error status = leb 400 status && ltb status 500

abbrev is_success : ℕ → Bool
is_success status = leb 200 status && ltb status 300

-- `Secret.model_validate`: a value of at least one character, and no malformed expiry.
validated : Option String → ExpiryField → Result Fault Secret
validated none field = err (issuer_error "answer has the wrong shape")
validated (some value) malformed = err (issuer_error "answer has the wrong shape")
validated (some value) absent =
    if is_text value
    then ok (record { value = value; expires_at = none })
    else err (issuer_error "answer has the wrong shape")
validated (some value) (at_time end) =
    if is_text value
    then ok (record { value = value; expires_at = some end })
    else err (issuer_error "answer has the wrong shape")

-- The reason of a client error.
refusal : Body → Result Fault Secret
refusal not_json = err (issuer_error "answer is not JSON")
refusal (document none value field) = err (issuer_error "answer has the wrong shape")
refusal (document (some detail) value field) = err (missing_secret detail)

accepted : Body → Result Fault Secret
unfolding validated
accepted not_json = err (issuer_error "answer is not JSON")
accepted (document detail value field) = validated value field

-- The `try` block of `Secret.fetch`.
read_answer : Answer → Result Fault Secret
unfolding refusal accepted
read_answer local_protocol_error = err (issuer_error "issuer headers are not valid HTTP")
read_answer (http_error name) = err (issuer_error name)
read_answer (response status body) =
    if is_client_error status
    then refusal body
    else if is_success status
    then accepted body
    else err (bad_status status)

-- `_UNITS`
unit_seconds : ℕ → Option ℕ
unit_seconds unit =
    if unit == b's'
    then some 1
    else if unit == b'm'
    then some 60
    else if unit == b'h'
    then some 3600
    else if unit == b'd'
    then some 86400
    else none

abbrev pub codes : String → List ℕ
codes Text.[] = []
codes (Text.◌∷◌ c s) = code c ∷ codes s

-- `int(interval[:-1]) * _UNITS[interval[-1]]`, for texts of digits and one unit.
interval_from : ℕ → List ℕ → Option ℕ
unfolding unit_seconds
interval_from count [] = none
interval_from count (unit ∷ []) = elim (unit_seconds unit) [
  | none ↦ none
  | some seconds ↦ some (count * seconds * 1000)
]
interval_from count (digit ∷ c ∷ rest) = interval_from (count * 10 + (digit - b'0')) (c ∷ rest)

unfoldable pub interval : String → Option ℕ
unfolding interval_from
interval text = interval_from 0 (codes text)

-- An answer with no expiry lives for the issuer's interval.
with_expiry : Issuer → ℕ → Secret → Option Secret
unfolding interval
with_expiry issuer now secret = elim secret.expires_at [
  | some end ↦ some secret
  | none ↦ elim (interval issuer.refresh) [
    | none ↦ none
    | some lifetime ↦ some (record { value = secret.value; expires_at = some (now + lifetime) })
  ]
]

checked : ℕ → Option Secret → Result Fault Secret
unfolding is_valid
checked now none = err key_error
checked now (some secret) =
    if is_valid secret now then ok secret else err (issuer_error "answer has already expired")

-- `Secret.fetch`, at the two readings of the clock that follow the answer.
unfoldable pub fetch : Issuer → Answer → (now later : ℕ) → Result Fault Secret
unfolding read_answer with_expiry checked
fetch issuer answer now later = elim (read_answer answer) [
  | err fault ↦ err fault
  | ok secret ↦ checked later (with_expiry issuer now secret)
]

daily : interval "1d" ≡ some 86400000
unfolding interval
daily = refl
