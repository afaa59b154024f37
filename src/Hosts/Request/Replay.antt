-- ===== src/Hosts/Request/Replay.antt =====
-- A request that comes again with its idempotency key (src/hosts/service.py).
use drukbox.Base.{
  ℕ, suc, ◌+◌, ◌<◌, String, true, false, not, ◌&&◌, ◌≡◌, refl, ap, ◌∙◌, eq_iff, Option, none, some,
  List, [], ◌∷◌, ◌++◌, arith, ltb, ◌==◌, if◌then◌else◌, str_eq, opt_text_eq, is_some_text, any,
  Bool-cases, inl, inr,
}
use drukbox.Base.Op.{Result, ok, err, ◌>>=◌}
use drukbox.Providers.{get_provider_names}
use drukbox.Hosts.Model.{Host, IdempotencyKey, Error, idempotency_key_conflict}
use drukbox.Hosts.World.{
  Env, World, IsIdle, query, store, utc_now, await_others, find_host, has_host, hours,
}
use drukbox.Hosts.Session.{get_host}
use drukbox.Hosts.Create.{HostRequest}
use drukbox.Hosts.Request.{
  find_key, new_key, key_holder, lookup_key, write_key, record_key, check_provider_name,
  get_or_create_host,
}

-- The world after one reading of the clock.
abbrev pub ticked : Env → World → World
ticked env w = record w { clock = w.clock + env.delay w.turn; turn = suc w.turn }

-- A known provider, or none.
abbrev pub IsKnown : Env → Option String → Type 0
IsKnown env provider =
    (is_some_text provider
      && not (any (λ n. opt_text_eq (some n) provider) (get_provider_names env.registry)))
    ≡ false

-- A key in force, and its host.
pub record IsHeld (env : Env) (key : String) (host : Host) (w : World) : Type 0 where
  pub row : IdempotencyKey
  pub recorded : find_key key w.db.keys ≡ some row
  pub in_force : ltb (w.clock + env.delay w.turn) row.expires_at ≡ true
  pub alive : find_host row.host_id w.db.hosts ≡ some host

abbrev pub replay : String → Host → Option String → Result Error (Option Host)
replay key host account =
    if opt_text_eq host.service_account account
    then ok (some host)
    else err (idempotency_key_conflict key)

lookup_key-held :
    (env : Env) (key : String) (account : Option String) (host : Host) (w : World)
    → IsHeld env key host w
    → lookup_key env key account w ≡ (replay key host account, ticked env w)
unfolding lookup_key key_holder get_host query utc_now ◌>>=◌
lookup_key-held env key account host w h =
    rw (h.recorded, h.in_force, h.alive)
      (elim (Bool-cases (opt_text_eq host.service_account account)) [
        | inl same ↦ rw same refl
        | inr other ↦ rw other refl
      ])

abbrev pub replayed : String → Host → Option String → Result Error Host
replayed key host account =
    if opt_text_eq host.service_account account then ok host else err (idempotency_key_conflict key)

-- A request that names no provider or a known one, with a key in force whose host is still there, is
-- answered with that host if it comes from the account that owns the host, and is refused otherwise.
-- Neither the database nor anything outside is touched: only the clock is read.
pub get_or_create_host-replayed :
    (env : Env) (r : HostRequest) (key : String) (host : Host) (w : World)
    → IsKnown env r.provider
    → IsHeld env key host w
    → get_or_create_host env r (some key) w ≡ (replayed key host r.service_account, ticked env w)
unfolding get_or_create_host check_provider_name ◌>>=◌
get_or_create_host-replayed env r key host w known h =
    rw (known, lookup_key-held env key r.service_account host w h)
      (elim (Bool-cases (opt_text_eq host.service_account r.service_account)) [
        | inl same ↦ rw same refl
        | inr other ↦ rw other refl
      ])

find_key-append :
    (key : String) (k : IdempotencyKey) (ks : List IdempotencyKey)
    → find_key key ks ≡ none
    → str_eq k.key key ≡ true
    → find_key key (ks ++ k ∷ []) ≡ some k
find_key-append key k [] h same = ground (arith, same)
find_key-append key k (x ∷ ks) h same = elim (Bool-cases (str_eq x.key key)) [
  | inl found ↦ absurd (ground (arith, h, found))
  | inr other ↦ ground (arith, other, h, same, find_key-append key k ks)
]

find_host-has_host :
    (i : ℕ) (hs : List Host) (h : Host) → find_host i hs ≡ some h → has_host i hs ≡ true
find_host-has_host i [] h there = absurd (ground arith)
find_host-has_host i (x ∷ hs) h there = elim (Bool-cases (x.id == i)) [
  | inl found ↦ ground (arith, found)
  | inr other ↦ ground (arith, other, there, find_host-has_host i hs h)
]

-- A key that is free is recorded for a host that is there, and a request with the key then finds
-- the host, until the key's hours have passed: here the next reading of the clock comes before.
pub record_key-IsHeld :
    (env : Env) (key : String) (host : Host) (w : World)
    → IsIdle env
    → find_key key w.db.keys ≡ none
    → find_host host.id w.db.hosts ≡ some host
    → env.delay (suc (suc w.turn)) < hours env.settings.idempotency_key_ttl_hours
    → ((record_key env key host w).0 ≡ ok true) × IsHeld env key host (record_key env key host w).1
unfolding record_key write_key query store utc_now await_others ◌>>=◌
record_key-IsHeld env key host w idle free there soon =
    let now = w.clock + env.delay w.turn in
    let row = new_key key host.id now (now + hours env.settings.idempotency_key_ttl_hours) in
    rw (free, find_host-has_host host.id w.db.hosts host there)
      (
        refl,
        record {
          row = row;
          recorded =
              ap (λ db. find_key key db.keys) (idle _ _)
              ∙ find_key-append key row w.db.keys free ((eq_iff key key).1 refl);
          in_force = ground arith;
          alive = ap (λ db. find_host host.id db.hosts) (idle _ _) ∙ there;
        },
      )
