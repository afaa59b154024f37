-- ===== src/Networking/Api/Live.antt =====
-- How long the access token of networking/tailscale.py is used.
use drukbox.Base.{
  ℕ, zero, suc, ◌+◌, ◌-◌, ◌<◌, String, ◌≡◌, refl, sym, ap, ◌⊎◌, inl, inr, Bool, ◌&&◌, Option, none,
  some, List, [], ◌∷◌, ltb, is_text, arith, Bool-cases,
}
use mathlib.Core.Path.{subst}
use drukbox.Base.Op.{Result, ok, err, Result-cases, ◌>>=◌}
use drukbox.Base.Keeps.{Keeps, Outcome, keeps_rules, Keeps-bind, Keeps-lift, Keeps-attempt}
use drukbox.Networking.Api.{
  Api, Call, join, discover, release, serve, serve_all, devices_of, issue_join_credentials, Tailnet,
  Document, Device, Request, get_token, NetworkFault, read_reply, read_token, ask_token, unexpired,
  from_cache, get_access_token, create_auth_key, list_devices, delete_device, send, request,
}

-- The clock when the request of a turn is sent: only the replies take time.
abbrev pub clock_of : Tailnet → ℕ → ℕ → ℕ
clock_of net origin zero = origin
clock_of net origin (suc turn) = clock_of net origin turn + net.delay turn

-- The token was given out, for so many seconds, in reply to a request that was sent at `at`.
pub record Issued (net : Tailnet) (origin : ℕ) (token : String) (at seconds : ℕ) : Type 0 where
  pub turn : ℕ
  pub sent : at ≡ clock_of net origin turn
  pub client_id : String
  pub client_secret : String
  pub document : Document
  pub answer : read_reply (net.reply turn (get_token client_id client_secret)) ≡ ok document
  pub given : read_token document ≡ ok (token, seconds)

-- The token in the cache is one that was given out, and its end is 60 seconds before the given one.
pub record IsKept (net : Tailnet) (origin : ℕ) (token : String) (expires_at : ℕ) : Type 0 where
  pub at : ℕ
  pub seconds : ℕ
  pub issued : Issued net origin token at seconds
  pub end : expires_at ≡ at + seconds - 60

abbrev pub IsKeptToken : Tailnet → ℕ → Option String → ℕ → Type 0
IsKeptToken net origin none expires_at = Unit
IsKeptToken net origin (some token) expires_at = IsKept net origin token expires_at

abbrev pub IsCached : Tailnet → ℕ → Api → Type 0
IsCached net origin api =
    (api.clock ≡ clock_of net origin api.turn)
    × IsKeptToken net origin api.access_token api.expires_at

-- A token is used at `now` only in the call that got it or with more than 60 seconds left.
pub record IsLive (net : Tailnet) (origin : ℕ) (token : String) (now : ℕ) : Type 0 where
  pub at : ℕ
  pub seconds : ℕ
  pub issued : Issued net origin token at seconds
  pub in_time : (at ≡ now) ⊎ (now + 60 < at + seconds)

module _ (net : Tailnet) (origin : ℕ) where
  send-IsCached : (r : Request) → Keeps (IsCached net origin) (send net r)
  unfolding send
  send-IsCached r = record { at = λ s h. (ap (λ c. c + net.delay s.turn) h.0, h.1) }

  request-IsCached : (r : Request) → Keeps (IsCached net origin) (request net r)
  unfolding request
  request-IsCached r = Keeps-bind _ _ (send-IsCached r) λ reply. Keeps-lift (read_reply reply)

  IsUsed : ℕ → String → Api → Type 0
  IsUsed now token api = IsCached net origin api × IsLive net origin token now

  IsKeptOnRaise : NetworkFault → Api → Type 0
  IsKeptOnRaise e api = IsCached net origin api

  outcome-IsCached :
      (now : ℕ) (r : Result NetworkFault String × Api)
      → Outcome (IsUsed now) IsKeptOnRaise r
      → IsCached net origin r.1
  unfolding IsUsed IsKeptOnRaise
  outcome-IsCached now (ok token, api) h = h.0
  outcome-IsCached now (err e, api) h = h

  ask_token-IsLive :
      (id secret : String) (api : Api)
      → IsCached net origin api
      → Outcome (IsUsed api.clock) IsKeptOnRaise (ask_token net api.clock (get_token id secret) api)
  unfolding ask_token request send IsUsed IsKeptOnRaise ◌>>=◌
  ask_token-IsLive id secret api kept =
      let sent : IsCached net origin (send net (get_token id secret) api).1 =
        (send-IsCached (get_token id secret)).at api kept in
      elim (Result-cases (read_reply (net.reply api.turn (get_token id secret)))) [
        | inl (e, refused) ↦ rw refused sent
        | inr (document, answer) ↦ rw answer (elim (Result-cases (read_token document)) [
          | inl (e, unread) ↦ rw unread sent
          | inr ((token, seconds), given) ↦ rw given (
              let issued : Issued net origin token api.clock seconds = record {
                turn = api.turn;
                sent = kept.0;
                client_id = id;
                client_secret = secret;
                document = document;
                answer = answer;
                given = given;
              } in
              (
                (sent.0, record { at = api.clock; seconds = seconds; issued = issued; end = refl }),
                record { at = api.clock; seconds = seconds; issued = issued; in_time = inl refl },
              ))
        ])
      ]

  unexpired-IsLive :
      (kept : Option String) (now expires_at : ℕ) (token : String)
      → IsKeptToken net origin kept expires_at
      → unexpired kept now expires_at ≡ some token
      → IsLive net origin token now
  unfolding unexpired
  unexpired-IsLive none now expires_at token k h = absurd (ground arith)
  unexpired-IsLive (some t) now expires_at token k h =
      elim (Bool-cases (is_text t && ltb now expires_at)) [
        | inr expired ↦ absurd (ground (arith, expired, h))
        | inl in_time ↦
            let same : t ≡ token = ground (arith, in_time, h) in
            record {
              at = k.at;
              seconds = k.seconds;
              issued = subst (λ x. Issued net origin x k.at k.seconds) same k.issued;
              in_time = inr (ground (arith, in_time, k.end));
            }
      ]

  from_cache-IsUsed :
      (found : Option String) (api : Api)
      → IsCached net origin api
      → unexpired api.access_token api.clock api.expires_at ≡ found
      → Outcome (IsUsed api.clock) IsKeptOnRaise (
          from_cache net found api.clock
            (get_token api.oauth_client_id api.oauth_client_secret)
            api)
  unfolding from_cache IsUsed IsKeptOnRaise ◌>>=◌
  from_cache-IsUsed none api kept h =
      ask_token-IsLive api.oauth_client_id api.oauth_client_secret api kept
  from_cache-IsUsed (some token) api kept h =
      (kept, unexpired-IsLive api.access_token api.clock api.expires_at token kept.1 h)

  get_access_token-IsUsed :
      (api : Api)
      → IsCached net origin api
      → Outcome (IsUsed api.clock) IsKeptOnRaise (get_access_token net api)
  unfolding get_access_token ◌>>=◌
  get_access_token-IsUsed api kept = from_cache-IsUsed _ api kept refl

  get_access_token-IsCached : Keeps (IsCached net origin) (get_access_token net)
  unfolding IsUsed IsKeptOnRaise
  get_access_token-IsCached = record {
    at = λ api kept. outcome-IsCached api.clock _ (get_access_token-IsUsed api kept);
  }

  create_auth_key-IsCached :
      (description : String) (tags : List String) (seconds : ℕ) (p e r : Bool)
      → Keeps (IsCached net origin) (create_auth_key net description tags seconds p e r)
  unfolding create_auth_key
  create_auth_key-IsCached description tags seconds p e r =
      search (keeps_rules, get_access_token-IsCached, request-IsCached) depth 14

  devices-IsCached : (d : Option (List Device)) → Keeps (IsCached net origin) (devices_of d)
  unfolding devices_of
  devices-IsCached none = search keeps_rules
  devices-IsCached (some devices) = search keeps_rules

  list_devices-IsCached : Keeps (IsCached net origin) (list_devices net)
  unfolding list_devices
  list_devices-IsCached =
      search (keeps_rules, get_access_token-IsCached, request-IsCached, devices-IsCached)

  serve-IsCached : (c : Call) → Keeps (IsCached net origin) (serve net c)
  unfolding serve issue_join_credentials delete_device
  serve-IsCached (join host_name) = search (keeps_rules, create_auth_key-IsCached)
  serve-IsCached discover = search (keeps_rules, list_devices-IsCached)
  serve-IsCached (release device_ref) =
      search (keeps_rules, get_access_token-IsCached, send-IsCached)

  serve_all-IsCached : (cs : List Call) → Keeps (IsCached net origin) (serve_all net cs)
  unfolding serve_all
  serve_all-IsCached [] = search keeps_rules
  serve_all-IsCached (c ∷ cs) =
      Keeps-bind _ _ (Keeps-attempt _ (serve-IsCached c)) λ ended. serve_all-IsCached cs

outcome-IsLive :
    (net : Tailnet) (origin now : ℕ) (r : Result NetworkFault String × Api)
    → Outcome (IsUsed net origin now) (IsKeptOnRaise net origin) r
    → Outcome (λ token api. IsLive net origin token now) (λ e api. Unit {0}) r
unfolding IsUsed
outcome-IsLive net origin now (ok token, api) h = h.1
outcome-IsLive net origin now (err e, api) h = tt

-- Whatever calls came before, each ending as it may, a token that `get_access_token` returns was
-- given out by the token endpoint, in reply to a request that was sent just now, or to an earlier one
-- of whose life more than 60 seconds are left; the API started without a token and without a request.
pub serve_all-IsLive :
    (net : Tailnet) (calls : List Call) (api : Api)
    → api.access_token ≡ none
    → api.turn ≡ 0
    → Outcome
        (λ token api'. IsLive net api.clock token (serve_all net calls api).1.clock)
        (λ e api'. Unit {0})
        (get_access_token net (serve_all net calls api).1)
serve_all-IsLive net calls api empty fresh =
    outcome-IsLive net api.clock (serve_all net calls api).1.clock _ (
      get_access_token-IsUsed net api.clock (serve_all net calls api).1 (
        (serve_all-IsCached net api.clock calls).at api (
          subst (λ n. api.clock ≡ clock_of net api.clock n) (sym fresh) refl,
          subst (λ t. IsKeptToken net api.clock t api.expires_at) (sym empty) tt,
        )))
