-- ===== src/Proxy/Addon.antt =====
-- deploy/proxy/swap.py: `Swap`, its hooks as operations on the addon's state and on what the hook
-- is given. Times are milliseconds.
pub mod Pinned
use drukbox.Base.{
  ℕ, suc, ◌+◌, ◌-◌, String, Bool, true, false, not, ◌&&◌, ◌||◌, Option, none, some, List, [], ◌∷◌,
  ◌++◌, ltb, leb, ◌==◌, if◌then◌else◌, str_eq, is_some, is_empty, is_some_text, or_else, all, any,
  map,
}
use drukbox.Base.Op.{
  Result, ok, err, Op, pure, raise, gets, lift, modify, pass, attempt, ◌>>=◌, ◌>>◌,
}
use drukbox.HostSecrets.Placeholder.{code_eq}
use drukbox.Exchange.Secret.{codes}
use drukbox.Proxy.Header.{lower, placeholder_in, hostname}
use drukbox.Proxy.Client.{
  Answer, Listing, Fault, refused, exchange_unavailable, value_error, read_listing, read_answer,
}

-- What the code reads of an `ipaddress` object.
pub record Address : Type 0 where
  pub version : ℕ
  pub packed : ℕ
  pub text : String
  pub is_global : Bool
  pub is_multicast : Bool

pub record Server : Type 0 where
  pub address : String
  pub port : ℕ
  pub sni : Option String
  pub error : Option String

-- A request as mitmproxy holds it, over its type of headers.
pub record Flow (H : Type 0) : Type 0 where
  pub scheme : String
  pub host : String
  pub host_header : Option String
  pub headers : H
  pub stream : Bool
  pub response : Option (ℕ × String)

-- The multidict of mitmproxy: its fields in order, `del` and assignment.
pub record Headers (H : Type 0) : Type 0 where
  pub items : H → List (List ℕ × List ℕ)
  pub remove : List ℕ → H → H
  pub set : List ℕ → List ℕ → H → H

-- The exchange behind its client, the resolver, the clock and the decoding of Basic credentials.
pub record Net (X : Type 0) : Type 0 where
  pub authorize : List ℕ → String → X → Answer × X
  pub upstreams : X → Listing × X
  pub addresses : ℕ → String → List Address
  pub delay : ℕ → ℕ
  pub is_address : String → Bool
  pub decode : List ℕ → Option (List ℕ)

-- `upstreams_at` is none for minus infinity. `ignored` is `ClientHelloData.ignore_connection`.
pub record State (X H : Type 0) : Type 0 where
  pub upstreams : List String
  pub upstreams_at : Option ℕ
  pub upstreams_known : Bool
  pub flow : Flow H
  pub server : Server
  pub ignored : Bool
  pub exchange : X
  pub clock : ℕ
  pub turn : ℕ

-- `UPSTREAMS_TTL`
abbrev pub upstreams_ttl : ℕ
upstreams_ttl = 5000

-- `is_reachable`
unfoldable pub is_reachable : List Address → Bool
is_reachable addresses =
    not (is_empty addresses) && all (λ a. a.is_global && not a.is_multicast) addresses

-- `min` by version and packed bytes.
abbrev pub is_before : Address → Address → Bool
is_before a b = ltb a.version b.version || a.version == b.version && ltb a.packed b.packed

unfoldable pub lowest : Address → List Address → Address
lowest a [] = a
lowest a (b ∷ bs) = lowest (if is_before b a then b else a) bs

-- Header names compare without case.
abbrev pub is_same_name : List ℕ → List ℕ → Bool
is_same_name a b = code_eq (lower a) (lower b)

abbrev pub Act : Type 0 → Type 0 → Type 0 → Type 0
Act X H A = Op (State X H) Fault A

abbrev pub is_due : Option ℕ → ℕ → Bool
is_due none now = true
is_due (some at) now = ltb upstreams_ttl (now - at)

-- The connection goes to the lowest address; a name stays in the SNI.
unfoldable pub pinned : Bool → String → Address → Server → Server
pinned literal host chosen server = record server {
  address = chosen.text;
  sni = if literal || is_some_text server.sni then server.sni else some host;
}

abbrev pub hello_host : Server → String
hello_host server = elim server.sni [
  | none ↦ server.address
  | some sni ↦ if is_some_text (some sni) then sni else server.address
]

module _ {X H : Type 0} where
  abbrev pub respond : ℕ → String → State X H → State X H
  respond code body s = record s { flow = record s.flow { response = some (code, body) } }

module _ {X H : Type 0} (net : Net X) where
  -- `time.monotonic`
  unfoldable pub monotonic : State X H → Result Fault ℕ × State X H
  monotonic s =
      let now = s.clock + net.delay s.turn in (ok now, record s { clock = now; turn = suc s.turn })

  unfoldable pub listing : State X H → Result Fault Listing × State X H
  listing s = let r = net.upstreams s.exchange in (ok r.0, record s { exchange = r.1 })

  -- While the exchange gives no answer, the last list stands.
  unfoldable pub keep_listing : Result Fault (List String) → Act X H (Unit {0})
  keep_listing (ok names) = modify (λ s. record s { upstreams = names; upstreams_known = true })
  keep_listing (err exchange_unavailable) = pass
  keep_listing (err e) = raise e

  unfoldable pub refetch : Act X H (Unit {0})
  unfolding listing keep_listing monotonic
  refetch = do
    answer ← listing
    keep_listing (read_listing answer)
    at ← monotonic
    modify (λ s. record s { upstreams_at = some at })

  -- `Swap.upstreams`
  unfoldable pub upstreams : Act X H (List String)
  unfolding monotonic refetch
  upstreams = do
    now ← monotonic
    at ← gets (λ s. s.upstreams_at)
    if is_due at now then refetch else pass
    gets (λ s. s.upstreams)

  -- `Swap.resolve`; an OSError is no address.
  unfoldable pub resolve : String → State X H → Result Fault (List Address) × State X H
  resolve host s = (ok (net.addresses s.turn host), record s { turn = suc s.turn })

  unfoldable pub refuse_unreachable : String → Act X H (Unit {0})
  unfolding resolve
  refuse_unreachable host = do
    addresses ← resolve host
    if is_reachable addresses then pass else modify (respond 403 "destination refused\n")

  -- `Swap.http_connect`
  unfoldable pub http_connect : Act X H (Unit {0})
  unfolding refuse_unreachable
  http_connect = do host ← gets (λ s. s.flow.host); refuse_unreachable host

  abbrev pub fail_server : String → State X H → State X H
  fail_server text s = record s { server = record s.server { error = some text } }

  unfoldable pub pin : String → List Address → Act X H (Unit {0})
  unfolding pinned
  pin host [] = modify (fail_server "destination refused")
  pin host (a ∷ as') =
      if is_reachable (a ∷ as')
      then modify
          (λ s. record s { server = pinned (net.is_address host) host (lowest a as') s.server })
      else modify (fail_server "destination refused")

  unfoldable pub connect_to : Bool → String → Act X H (Unit {0})
  unfolding resolve pin
  connect_to false host = modify (fail_server "the exchange has not answered yet")
  connect_to true host = do addresses ← resolve host; pin host addresses

  -- `Swap.server_connect`
  unfoldable pub server_connect : Act X H (Unit {0})
  unfolding upstreams connect_to
  server_connect = do
    names ← upstreams
    known ← gets (λ s. s.upstreams_known)
    host ← gets (λ s. s.server.address)
    connect_to known host

  -- `Swap.tls_clienthello`; a connection that is not intercepted is ignored.
  unfoldable pub tls_clienthello : Act X H (Unit {0})
  unfolding upstreams
  tls_clienthello = do
    host ← gets (λ s. hello_host s.server)
    names ← upstreams
    let intercepted = any (str_eq host) names
    modify (λ s. record s { ignored = not intercepted })
    if intercepted
        then modify (λ s. record s { server = record s.server { sni = some host } })
        else pass
