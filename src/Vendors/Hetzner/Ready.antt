-- ===== src/Vendors/Hetzner/Ready.antt =====
-- The loop of `wait_for_running_with_ip` in src/providers/hetzner/api.py.
use mathlib.Core.Path.{subst}
use drukbox.Base.{
  ℕ, zero, suc, ◌+◌, ◌*◌, ◌≤◌, ◌<◌, ◌≡◌, refl, String, Bool, true, false, Option, none, some, List,
  ◌∷◌, leb, ◌==◌, str_eq, length, arith, inl, inr, ◌⊎◌, Bool-cases, ap, eq_iff, is_text,
}
use drukbox.Base.Op.{Result, ok, err, gets, lift, ◌>>=◌}
use drukbox.Base.Keeps.{Outcome}
use drukbox.Vendors.Hetzner.Api.{
  HetznerFault, transport, key_error, unfinished, Server, Payload, Content, no_content, no_json,
  json, Reply, unreachable, replied, Request, get_server, State, Hetzner, read_reply, read_content,
  needed, note, request, ready_ip, ask_ip, sleep, go_on, wait_until, poll_time, run_timeout, rounds,
  wait_for_running_with_ip,
}

-- What the reply says of the server: its address, that it is not ready, or an error.
abbrev said_of : Option Server → Result HetznerFault (Option String)
said_of none = err key_error
said_of (some server) = ready_ip server.status server.ip

abbrev said_in : Result HetznerFault Payload → Result HetznerFault (Option String)
said_in (err e) = err e
said_in (ok payload) = said_of payload.server

abbrev said : Reply → Result HetznerFault (Option String)
said reply = said_in (read_reply reply)

said_of-lift :
    (server : Option Server) (s : State)
    → (lift (needed server) >>= λ found. lift (ready_ip found.status found.ip)) s
      ≡ (said_of server, s)
unfolding needed ◌>>=◌ lift
said_of-lift none s = refl
said_of-lift (some server) s = refl

-- The loop ended by itself.
abbrev pub is_ended : HetznerFault → Bool
is_ended unfinished = false
is_ended _ = true

-- The reply shows a server that is running, with this address.
abbrev pub IsUpServer : Option Server → String → Type 0
IsUpServer none ip = ⊥
IsUpServer (some server) ip = (server.status ≡ some "running") × (server.ip ≡ some ip)

abbrev pub IsUpContent : Content → String → Type 0
IsUpContent no_content ip = ⊥
IsUpContent no_json ip = ⊥
IsUpContent (json payload) ip = IsUpServer payload.server ip

abbrev pub IsUp : Reply → String → Type 0
IsUp unreachable ip = ⊥
IsUp (replied status content) ip = (status < 400) × IsUpContent content ip

-- There is no reply, it has a status of an error, or it shows no server with a status.
abbrev pub HasNoStatus : Option Server → Type 0
HasNoStatus none = Unit
HasNoStatus (some server) = server.status ≡ none

abbrev pub HasNoServer : Content → Type 0
HasNoServer no_content = Unit
HasNoServer no_json = Unit
HasNoServer (json payload) = HasNoStatus payload.server

abbrev pub IsFaulty : Reply → Type 0
IsFaulty unreachable = Unit
IsFaulty (replied status content) = (400 ≤ status) ⊎ HasNoServer content

-- What a result says of what it was read from.
abbrev Means : (String → Type 0) → Type 0 → Result HetznerFault (Option String) → Type 0
Means Up Faulty (ok none) = Unit
Means Up Faulty (ok (some ip)) = Up ip
Means Up Faulty (err e) = Faulty × (is_ended e ≡ true)

ready_ip-Means :
    (status ip : Option String)
    → Means
        (λ text. (status ≡ some "running") × (ip ≡ some text))
        (status ≡ none)
        (ready_ip status ip)
unfolding ready_ip
ready_ip-Means none ip = (refl, refl)
ready_ip-Means (some status) none = elim (Bool-cases (str_eq status "running")) [
  | inl up ↦ rw up tt
  | inr down ↦ rw down tt
]
ready_ip-Means (some status) (some text) = elim (Bool-cases (str_eq status "running")) [
  | inr down ↦ rw down tt
  | inl up ↦ elim (Bool-cases (is_text text)) [
    | inl full ↦ rw up (rw full (ap some ((eq_iff status "running").0 up), refl))
    | inr blank ↦ rw up (rw blank tt)
  ]
]

server-Means :
    (server : Option Server) → Means (IsUpServer server) (HasNoStatus server) (said_of server)
server-Means none = (tt, refl)
server-Means (some server) = ready_ip-Means server.status server.ip

content-Means :
    (content : Content)
    → Means (IsUpContent content) (HasNoServer content) (said_in (read_content content))
unfolding read_content
content-Means no_content = (tt, refl)
content-Means no_json = (tt, refl)
content-Means (json payload) = server-Means payload.server

accepted-Means :
    (status : ℕ) (content : Content) (r : Result HetznerFault (Option String))
    → status < 400
    → Means (IsUpContent content) (HasNoServer content) r
    → Means (IsUp (replied status content)) (IsFaulty (replied status content)) r
accepted-Means status body (ok none) h m = tt
accepted-Means status body (ok (some ip)) h m = (h, m)
accepted-Means status body (err e) h m = (inr m.0, m.1)

said-Means : (reply : Reply) → Means (IsUp reply) (IsFaulty reply) (said reply)
unfolding read_reply
said-Means unreachable = (tt, refl)
said-Means (replied status content) = elim (Bool-cases (status == 404)) [
  | inl missing ↦ rw missing (inl (ground (arith, missing)), refl)
  | inr a ↦ elim (Bool-cases (leb 400 status)) [
    | inl refused ↦ rw a (rw refused (inl (ground (arith, refused)), refl))
    | inr b ↦
        rw a (rw b (accepted-Means status content _ (ground (arith, b)) (content-Means content)))
  ]
]

module _ (hetzner : Hetzner) (server_id : String) where
  -- The last request asked for the server, and its reply is such.
  abbrev pub LastReply : State → (Reply → Type 0) → Type 0
  LastReply s Such =
      (before : List Request) × (s.asked ≡ get_server server_id ∷ before)
      × Such (hetzner.reply (length before) (get_server server_id))

  -- An address is the one that the last reply shows of a running server; the loop gives up for a
  -- last reply that is faulty, or once the deadline has passed.
  abbrev pub IsEnd : ℕ → Result HetznerFault String × State → Type 0
  IsEnd deadline =
      Outcome (λ ip s. LastReply s (λ reply. IsUp reply ip))
        (λ e s.
          (is_ended e ≡ true) × (LastReply s IsFaulty ⊎ ((e ≡ transport) × (deadline ≤ s.clock))))

  last_meant :
      (s : State) (answer : Result HetznerFault (Option String))
      → said (hetzner.reply (length s.asked) (get_server server_id)) ≡ answer
      → Means
          (IsUp (hetzner.reply (length s.asked) (get_server server_id)))
          (IsFaulty (hetzner.reply (length s.asked) (get_server server_id)))
          answer
  last_meant s answer answered =
      let reply = hetzner.reply (length s.asked) (get_server server_id) in
      subst (Means (IsUp reply) (IsFaulty reply)) answered (said-Means reply)

  said-lift :
      (r : Result HetznerFault Payload) (s : State)
      → (lift r >>= λ answer.
            lift (needed answer.server) >>= λ server. lift (ready_ip server.status server.ip))
          s
        ≡ (said_in r, s)
  unfolding needed ◌>>=◌ lift
  said-lift (err e) s = refl
  said-lift (ok payload) s = said_of-lift payload.server s

  ask_ip-said :
      (s : State)
      → ask_ip hetzner server_id s ≡ (
        said (hetzner.reply (length s.asked) (get_server server_id)),
        note hetzner (get_server server_id) s,
      )
  unfolding ask_ip request ◌>>=◌
  ask_ip-said s =
      said-lift (read_reply (hetzner.reply (length s.asked) (get_server server_id)))
        (note hetzner (get_server server_id) s)

  go_on-IsEnd :
      (fuel deadline : ℕ) (s : State) (answer : Result HetznerFault (Option String))
      → said (hetzner.reply (length s.asked) (get_server server_id)) ≡ answer
      → deadline ≤ s.clock + poll_time * fuel
      → ((s' : State)
          → deadline + poll_time ≤ s'.clock + poll_time * fuel
          → s'.clock < deadline + poll_time
          → IsEnd deadline (wait_until hetzner fuel server_id deadline s'))
      → IsEnd deadline (
          (lift answer >>= go_on (wait_until hetzner fuel server_id deadline) deadline)
            (note hetzner (get_server server_id) s))
  unfolding ◌>>=◌ lift go_on note sleep
  go_on-IsEnd fuel deadline s (err e) answered h again =
      let meant = last_meant s (err e) answered in (meant.1, inl (s.asked, refl, meant.0))
  go_on-IsEnd fuel deadline s (ok (some ip)) answered h again =
      (s.asked, refl, last_meant s (ok (some ip)) answered)
  go_on-IsEnd fuel deadline s (ok none) answered h again =
      elim (Bool-cases (leb deadline (s.clock + hetzner.delay (length s.asked)))) [
        | inl over ↦ rw over (refl, inr (refl, ground (arith, over)))
        | inr early ↦ rw early (again _ (ground (arith, h)) (ground (arith, early)))
      ]

  wait_until-IsEnd :
      (fuel deadline : ℕ) (s : State)
      → deadline + poll_time ≤ s.clock + poll_time * fuel
      → s.clock < deadline + poll_time
      → IsEnd deadline (wait_until hetzner fuel server_id deadline s)
  unfolding wait_until ◌>>=◌ lift
  wait_until-IsEnd zero deadline s enough early = absurd (ground (arith, enough, early))
  wait_until-IsEnd (suc fuel) deadline s enough early =
      rw (ask_ip-said s) (
        go_on-IsEnd fuel deadline s _ refl (ground (arith, enough))
          (wait_until-IsEnd fuel deadline))

-- The loop ends by itself, so its fuel is enough: a server is given up only if its last reply is
-- missing, has an error's status or shows no status, or once 300 seconds have passed since the start;
-- an address that is returned is the one in the last reply, whose server has the status "running".
pub wait_for_running_with_ip-IsEnd :
    (hetzner : Hetzner) (server_id : String) (s : State)
    → IsEnd hetzner server_id (s.clock + run_timeout) (wait_for_running_with_ip hetzner server_id s)
unfolding wait_for_running_with_ip ◌>>=◌ gets
wait_for_running_with_ip-IsEnd hetzner server_id s =
    wait_until-IsEnd hetzner server_id rounds (s.clock + run_timeout) s (ground arith)
      (ground arith)
