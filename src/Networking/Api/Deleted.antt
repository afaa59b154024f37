-- ===== src/Networking/Api/Deleted.antt =====
-- When `TailscaleAPI.delete_device` of networking/tailscale.py returns, and what it raises.
use drukbox.Base.{
  ℕ, String, ◌≡◌, refl, ◌⊎◌, inl, inr, Bool, true, false, not, ◌||◌, Option, none, some, ◌∷◌, ◌==◌,
  is_text, arith, Bool-cases,
}
use drukbox.Base.Op.{Result, ok, err, Result-cases, lift, resume, ◌>>=◌}
use drukbox.Base.Keeps.{Outcome}
use drukbox.Networking.Api.{
  Api, Tailnet, Reply, replied, unreachable, get_token, delete, NetworkFault, network_auth,
  network_transport, network_status, read_reply, read_token, read_deleted, ask_token, from_cache,
  get_access_token, send, request, delete_device,
}

-- The device is deleted, or is not there.
abbrev pub is_gone : Reply → Bool
is_gone (unreachable text) = false
is_gone (replied status text json) = status == 200 || status == 204 || status == 404

abbrev pub is_denied : Reply → Bool
is_denied (unreachable text) = false
is_denied (replied status text json) = status == 401 || status == 403

-- The error that stands for a reply.
abbrev pub is_error_of : NetworkFault → Reply → Bool
is_error_of (network_auth text) reply = is_denied reply
is_error_of (network_transport text) reply = not (is_gone reply || is_denied reply)
is_error_of (network_status status text) reply = not (is_gone reply || is_denied reply)
is_error_of e reply = false

-- Nothing is asked but a token.
abbrev pub IsUntouched : Api → Api → Type 0
IsUntouched before after =
    (after.asked ≡ before.asked)
    ⊎ ((id : String) × (secret : String) × (after.asked ≡ get_token id secret ∷ before.asked))

-- The deletion is the last thing asked, and its reply is `reply`.
pub record IsAsked (net : Tailnet) (device_id : String) (reply : Reply) (before after : Api)
    : Type 0 where
  pub token : String
  pub turn : ℕ
  pub between : Api
  pub untouched : IsUntouched before between
  pub asked : after.asked ≡ delete token device_id ∷ between.asked
  pub answer : net.reply turn (delete token device_id) ≡ reply

abbrev pub IsDeleted : Tailnet → String → Api → Api → Type 0
IsDeleted net device_id before after =
    (reply : Reply) × IsAsked net device_id reply before after × (is_gone reply ≡ true)

abbrev pub IsFailed : Tailnet → String → Api → NetworkFault → Api → Type 0
IsFailed net device_id before e after =
    IsUntouched before after
    ⊎ ((reply : Reply) × IsAsked net device_id reply before after × (is_error_of e reply ≡ true))

abbrev IsReadAs : Reply → Result NetworkFault (Unit {0}) → Type 0
IsReadAs reply (ok u) = is_gone reply ≡ true
IsReadAs reply (err e) = is_error_of e reply ≡ true

read_deleted-IsReadAs : (reply : Reply) → IsReadAs reply (read_deleted reply)
unfolding read_deleted
read_deleted-IsReadAs (unreachable text) = refl
read_deleted-IsReadAs (replied status text json) = elim (Bool-cases (status == 401)) [
  | inl a ↦ rw a (ground (arith, a))
  | inr a ↦ rw a (elim (Bool-cases (status == 403)) [
    | inl b ↦ rw b (ground (arith, b))
    | inr b ↦ rw b (elim (Bool-cases (status == 404)) [
      | inl c ↦ rw c (ground (arith, c))
      | inr c ↦ rw c (elim (Bool-cases (status == 200 || status == 204)) [
        | inl d ↦ rw d (ground (arith, d))
        | inr d ↦ rw d (elim (Bool-cases (is_text text)) [
          | inl e ↦ rw e (ground (arith, a, b, c, d))
          | inr e ↦ rw e (ground (arith, a, b, c, d))
        ])
      ])
    ])
  ])
]

module _ (net : Tailnet) where
  ask_token-IsUntouched :
      (now : ℕ) (id secret : String) (api : Api)
      → IsUntouched api (ask_token net now (get_token id secret) api).1
  unfolding ask_token request send ◌>>=◌
  ask_token-IsUntouched now id secret api =
      elim (Result-cases (read_reply (net.reply api.turn (get_token id secret)))) [
        | inl (e, refused) ↦ rw refused (inr (id, secret, refl))
        | inr (document, answer) ↦ rw answer (elim (Result-cases (read_token document)) [
          | inl (e, unread) ↦ rw unread (inr (id, secret, refl))
          | inr (given, read) ↦ rw read (inr (id, secret, refl))
        ])
      ]

  from_cache-IsUntouched :
      (found : Option String) (api : Api)
      → IsUntouched api
          (from_cache net found api.clock
            (get_token api.oauth_client_id api.oauth_client_secret)
            api).1
  unfolding from_cache ◌>>=◌
  from_cache-IsUntouched none api = ask_token-IsUntouched api.clock _ _ api
  from_cache-IsUntouched (some token) api = inl refl

  get_access_token-IsUntouched : (api : Api) → IsUntouched api (get_access_token net api).1
  unfolding get_access_token ◌>>=◌
  get_access_token-IsUntouched api = from_cache-IsUntouched _ api

  sent-IsSettled :
      (device_id token : String) (before api : Api) (r : Result NetworkFault (Unit {0}))
      → IsUntouched before api
      → IsReadAs (net.reply api.turn (delete token device_id)) r
      → Outcome
          (λ u. IsDeleted net device_id before)
          (IsFailed net device_id before)
          (r, (send net (delete token device_id) api).1)
  unfolding send
  sent-IsSettled device_id token before api (ok u) untouched h = (
    net.reply api.turn (delete token device_id),
    record {
      token = token;
      turn = api.turn;
      between = api;
      untouched = untouched;
      asked = refl;
      answer = refl;
    },
    h,
  )
  sent-IsSettled device_id token before api (err e) untouched h = inr (
    net.reply api.turn (delete token device_id),
    record {
      token = token;
      turn = api.turn;
      between = api;
      untouched = untouched;
      asked = refl;
      answer = refl;
    },
    h,
  )

  with_token-IsSettled :
      (device_id : String) (before : Api) (r : Result NetworkFault String × Api)
      → IsUntouched before r.1
      → Outcome
          (λ u. IsDeleted net device_id before)
          (IsFailed net device_id before)
          (resume r
            λ token. send net (delete token device_id) >>= λ reply. lift (read_deleted reply))
  unfolding send ◌>>=◌
  with_token-IsSettled device_id before (err e, api) untouched = inl untouched
  with_token-IsSettled device_id before (ok token, api) untouched =
      sent-IsSettled device_id token before api _ untouched
        (read_deleted-IsReadAs (net.reply api.turn (delete token device_id)))

-- `delete_device` returns only when its DELETE, the last request that it made, was answered with 200,
-- 204 or 404. When it raises, either no DELETE was sent and at most a token was asked for, or the
-- DELETE was refused, and then the error is one of authentication exactly for 401 and 403.
pub delete_device-IsSettled :
    (net : Tailnet) (device_id : String) (api : Api)
    → Outcome
        (λ u. IsDeleted net device_id api)
        (IsFailed net device_id api)
        (delete_device net device_id api)
unfolding delete_device ◌>>=◌
delete_device-IsSettled net device_id api =
    with_token-IsSettled net device_id api _ (get_access_token-IsUntouched net api)
