-- ===== src/Exchange/Secret/Usable.antt =====
-- What `Secret.fetch` of src/secrets_exchange/secrets.py accepts.
use drukbox.Base.{
  ℕ, String, true, ◌≡◌, Option, none, some, arith, Bool-cases, Option-cases, inl, inr, is_text,
  is_some, ltb, leb, ◌&&◌,
}
use drukbox.Base.Op.{ok, Result-cases}
use drukbox.Exchange.Secret.{
  Secret, Issuer, Answer, response, local_protocol_error, http_error, Body, not_json, document,
  ExpiryField, absent, at_time, malformed, fetch, read_answer, accepted, validated, refusal,
  with_expiry, checked, interval, is_valid,
}

-- A secret that a caller can use: it has a value and an end, and the end is ahead.
pub record IsUsable (secret : Secret) (now : ℕ) : Type 0 where
  pub valued : is_text secret.value ≡ true
  pub bounded : is_some secret.expires_at ≡ true
  pub valid : is_valid secret now ≡ true

-- The answer was a success with this value in it.
abbrev pub Carries : Answer → String → Type 0
Carries (response status (document detail (some value) field)) v =
    ((leb 200 status && ltb status 300) ≡ true) × (value ≡ v)
Carries _ v = ⊥

validated-is_text :
    (value : Option String) (field : ExpiryField) (s : Secret)
    → validated value field ≡ ok s
    → (is_text s.value ≡ true) × (value ≡ some s.value)
unfolding validated
validated-is_text none field s h = absurd (ground arith)
validated-is_text (some v) malformed s h = absurd (ground arith)
validated-is_text (some v) absent s h = ground arith
validated-is_text (some v) (at_time end) s h = ground arith

accepted-Carries :
    (status : ℕ) (body : Body) (s : Secret)
    → (leb 200 status && ltb status 300) ≡ true
    → accepted body ≡ ok s
    → (is_text s.value ≡ true) × Carries (response status body) s.value
unfolding accepted
accepted-Carries status not_json s two h = absurd (ground arith)
accepted-Carries status (document detail none field) s two h =
    absurd (ground (arith, validated-is_text none field s h))
accepted-Carries status (document detail (some v) field) s two h =
    ground (arith, two, validated-is_text (some v) field s h)

refusal-err : (body : Body) (s : Secret) → refusal body ≡ ok s → ⊥
unfolding refusal
refusal-err not_json s h = ground arith
refusal-err (document none v f) s h = ground arith
refusal-err (document (some d) v f) s h = ground arith

read_answer-Carries :
    (answer : Answer) (s : Secret)
    → read_answer answer ≡ ok s
    → (is_text s.value ≡ true) × Carries answer s.value
unfolding read_answer
read_answer-Carries local_protocol_error s h = absurd (ground arith)
read_answer-Carries (http_error name) s h = absurd (ground arith)
read_answer-Carries (response status body) s h =
    elim (Bool-cases (leb 400 status && ltb status 500)) [
      | inl client ↦ absurd (refusal-err body s (ground (arith, client)))
      | inr other ↦ elim (Bool-cases (leb 200 status && ltb status 300)) [
        | inl success ↦ accepted-Carries status body s success (ground (arith, other, success))
        | inr failure ↦ absurd (ground (arith, other, failure))
      ]
    ]

checked-valid :
    (now : ℕ) (o : Option Secret) (s : Secret)
    → checked now o ≡ ok s
    → (is_valid s now ≡ true) × (o ≡ some s)
unfolding checked
checked-valid now none s h = absurd (ground arith)
checked-valid now (some x) s h = elim (Bool-cases (is_valid x now)) [
  | inl valid ↦ ground (arith, valid)
  | inr expired ↦ absurd (ground (arith, expired))
]

with_expiry-bounded :
    (issuer : Issuer) (now : ℕ) (a s : Secret)
    → with_expiry issuer now a ≡ some s
    → (is_some s.expires_at ≡ true) × (s.value ≡ a.value)
unfolding with_expiry
with_expiry-bounded issuer now a s h = elim (Option-cases a.expires_at) [
  | inr (end, bounded) ↦ ground (arith, bounded)
  | inl open_end ↦ elim (Option-cases (interval issuer.refresh)) [
    | inr (lifetime, known) ↦ ground (arith, open_end, known)
    | inl unknown ↦ absurd (ground (arith, open_end, unknown))
  ]
]

-- A fetch that returns has read a successful answer, with the secret's value in it; the secret has a
-- value of at least one character and an end, and is valid at the last reading of the clock.
pub fetch-IsUsable :
    (issuer : Issuer) (answer : Answer) (now later : ℕ) (s : Secret)
    → fetch issuer answer now later ≡ ok s
    → IsUsable s later × Carries answer s.value
unfolding fetch
fetch-IsUsable issuer answer now later s h = elim (Result-cases (read_answer answer)) [
  | inl (e, failed) ↦ absurd (ground (arith, failed))
  | inr (a, done) ↦
      let (valid, ended) =
        checked-valid later (with_expiry issuer now a) s (ground (arith, done)) in
      let (bounded, same) = with_expiry-bounded issuer now a s ended in
      let (valued, carried) = read_answer-Carries answer a done in
      (record { valued = rw same valued; bounded = bounded; valid = valid }, rw same carried)
]
