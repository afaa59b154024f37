-- ===== src/Proxy/Addon/Pinned.antt =====
-- Where `server_connect` of deploy/proxy/swap.py lets a connection go.
use drukbox.Base.{
  ℕ, String, ◌≡◌, refl, ap, sym, ◌⊎◌, inl, inr, Bool, true, false, not, ◌&&◌, ◌||◌, List, [], ◌∷◌,
  is_some, is_some_text, is_text, all, All, IsIn, arith, Bool-cases,
}
use mathlib.Core.Path.{subst}
use drukbox.Base.Op.{Result, ok, err, ◌>>=◌}
use drukbox.Base.Keeps.{Keeps, Outcome, keeps_rules, Keeps-modify, Keeps-bind}
use drukbox.Base.Yields.{Yields-bind, Yields-Keeps}
use drukbox.Proxy.Client.{
  Fault, refused, exchange_unavailable, key_error, value_error, read_listing,
}
use drukbox.Proxy.Addon.{
  Address, Server, Net, State, is_reachable, is_before, lowest, pinned, pin, upstreams, refetch,
  keep_listing, listing, monotonic, resolve, connect_to, server_connect,
}

-- The connection goes to a public address that the host resolved to, the lowest of them; a name
-- without an SNI becomes the SNI.
pub record IsPinned {X : Type 0} (net : Net X) (before after : Server) : Type 0 where
  pub turn : ℕ
  pub chosen : Address
  pub resolved : IsIn chosen (net.addresses turn before.address)
  pub least : All (λ a. is_before a chosen ≡ false) (net.addresses turn before.address)
  pub is_public : chosen.is_global ≡ true
  pub is_single : chosen.is_multicast ≡ false
  pub address : after.address ≡ chosen.text
  pub port : after.port ≡ before.port
  pub named :
      (is_some_text after.sni || net.is_address before.address || not (is_text before.address))
      ≡ true
  pub no_error : after.error ≡ before.error

-- The connection fails.
pub record IsFailed (before after : Server) : Type 0 where
  pub error : is_some after.error ≡ true
  pub same_address : after.address ≡ before.address

lowest_lower :
    (a b : Address) (bs : List Address) → is_before b a ≡ true → lowest a (b ∷ bs) ≡ lowest b bs
unfolding lowest
lowest_lower a b bs h = rw h refl

lowest_above :
    (a b : Address) (bs : List Address) → is_before b a ≡ false → lowest a (b ∷ bs) ≡ lowest a bs
unfolding lowest
lowest_above a b bs h = rw h refl

later-IsIn : (x a b : Address) (bs : List Address) → IsIn x (a ∷ bs) → IsIn x (a ∷ b ∷ bs)
later-IsIn x a b bs (inl first) = inl first
later-IsIn x a b bs (inr later) = inr (inr later)

lowest-IsIn : (a : Address) (as' : List Address) → IsIn (lowest a as') (a ∷ as')
unfolding lowest
lowest-IsIn a [] = inl refl
lowest-IsIn a (b ∷ bs) = elim (Bool-cases (is_before b a)) [
  | inl lower ↦
      subst (λ x. IsIn x (a ∷ b ∷ bs)) (sym (lowest_lower a b bs lower)) (inr (lowest-IsIn b bs))
  | inr above ↦
      subst (λ x. IsIn x (a ∷ b ∷ bs)) (sym (lowest_above a b bs above))
        (later-IsIn (lowest a bs) a b bs (lowest-IsIn a bs))
]

before_trans :
    (a b c : Address) → is_before a b ≡ false → is_before b c ≡ false → is_before a c ≡ false
before_trans a b c h k = ground (arith, h, k)

before_asym : (a b : Address) → is_before a b ≡ true → is_before b a ≡ false
before_asym a b h = ground (arith, h)

before_irrefl : (a : Address) → is_before a a ≡ false
before_irrefl a = ground arith

lowest-first : (a : Address) (as' : List Address) → is_before a (lowest a as') ≡ false
unfolding lowest
lowest-first a [] = before_irrefl a
lowest-first a (b ∷ bs) = elim (Bool-cases (is_before b a)) [
  | inl lower ↦
      rw (lower, lowest)
        (before_trans a b (lowest b bs) (before_asym b a lower) (lowest-first b bs))
  | inr above ↦ rw (above, lowest) (lowest-first a bs)
]

abbrev IsLeast : List Address → Address → Type 0
IsLeast xs x = All (λ b. is_before b x ≡ false) xs

lowest-IsLeast : (a : Address) (as' : List Address) → IsLeast (a ∷ as') (lowest a as')
unfolding lowest
lowest-IsLeast a [] = (before_irrefl a, tt)
lowest-IsLeast a (b ∷ bs) = elim (Bool-cases (is_before b a)) [
  | inl lower ↦ subst (IsLeast (a ∷ b ∷ bs)) (sym (lowest_lower a b bs lower)) (
    before_trans a b (lowest b bs) (before_asym b a lower) (lowest-first b bs),
    lowest-IsLeast b bs,
  )
  | inr above ↦ subst (IsLeast (a ∷ b ∷ bs)) (sym (lowest_above a b bs above)) (
    (lowest-IsLeast a bs).0,
    (before_trans b a (lowest a bs) above (lowest-first a bs), (lowest-IsLeast a bs).1),
  )
]

all-IsIn :
    (p : Address → Bool) (x : Address) (xs : List Address)
    → all p xs ≡ true
    → IsIn x xs
    → p x ≡ true
all-IsIn p x [] h there = absurd there
all-IsIn p x (y ∷ ys) h (inl same) = rw same (ground (arith, h))
all-IsIn p x (y ∷ ys) h (inr later) = all-IsIn p x ys (ground (arith, h)) later

is_reachable-all :
    (as' : List Address)
    → is_reachable as' ≡ true
    → all (λ a. a.is_global && not a.is_multicast) as' ≡ true
unfolding is_reachable
is_reachable-all [] h = absurd (ground arith)
is_reachable-all (a ∷ as') h = ground (arith, h)

pinned_name :
    (literal : Bool) (host : String) (chosen : Address) (server : Server)
    → (is_some_text (pinned literal host chosen server).sni || literal || not (is_text host)) ≡ true
unfolding pinned
pinned_name true host chosen server = ground arith
pinned_name false host chosen server = elim (Bool-cases (is_some_text server.sni)) [
  | inl there ↦ rw there (rw there refl)
  | inr absent ↦ rw absent (ground arith)
]

module _ {X H : Type 0} (net : Net X) (v : Server) where
  IsServer : State X H → Type 0
  IsServer s = s.server ≡ v

  monotonic-IsServer : Keeps IsServer (monotonic net)
  unfolding monotonic IsServer
  monotonic-IsServer = record { at = λ s h. h }

  listing-IsServer : Keeps IsServer (listing net)
  unfolding listing IsServer
  listing-IsServer = record { at = λ s h. h }

  keep_listing-IsServer : (r : Result Fault (List String)) → Keeps IsServer (keep_listing net r)
  unfolding keep_listing IsServer
  keep_listing-IsServer (ok names) = Keeps-modify _ λ s h. h
  keep_listing-IsServer (err refused) = search keeps_rules
  keep_listing-IsServer (err exchange_unavailable) = search keeps_rules
  keep_listing-IsServer (err key_error) = search keeps_rules
  keep_listing-IsServer (err value_error) = search keeps_rules

  refetch-IsServer : Keeps IsServer (refetch net)
  unfolding refetch IsServer
  refetch-IsServer = Keeps-bind _ _ listing-IsServer λ answer.
      Keeps-bind _ _ (keep_listing-IsServer (read_listing answer))
        λ u. Keeps-bind _ _ monotonic-IsServer λ at. Keeps-modify _ λ s h. h

  upstreams-IsServer : Keeps IsServer (upstreams net)
  unfolding upstreams
  upstreams-IsServer = search (keeps_rules, monotonic-IsServer, refetch-IsServer)

  pin-IsPinned :
      (turn : ℕ) (host : String) (as' : List Address) (s : State X H)
      → host ≡ v.address
      → as' ≡ net.addresses turn v.address
      → s.server ≡ v
      → Outcome
          (λ u s'. IsFailed v s'.server ⊎ IsPinned net v s'.server)
          (λ e s'. s'.server ≡ v)
          (pin net host as' s)
  unfolding pin pinned ◌>>=◌
  pin-IsPinned turn host [] s named resolved same =
      inl (record { error = refl; same_address = ap (λ x. x.address) same })
  pin-IsPinned turn host (a ∷ as') s named resolved same =
      elim (Bool-cases (is_reachable (a ∷ as'))) [
        | inr hidden ↦
            rw hidden (inl (record { error = refl; same_address = ap (λ x. x.address) same }))
        | inl reachable ↦ rw reachable (
            let public : ((lowest a as').is_global && not (lowest a as').is_multicast) ≡ true =
              all-IsIn (λ x. x.is_global && not x.is_multicast) (lowest a as') (a ∷ as')
                (is_reachable-all (a ∷ as') reachable) (lowest-IsIn a as') in
            inr (record {
              turn = turn;
              chosen = lowest a as';
              resolved = subst (IsIn (lowest a as')) resolved (lowest-IsIn a as');
              least = subst (λ xs. IsLeast xs (lowest a as')) resolved (lowest-IsLeast a as');
              is_public = ground (arith, public);
              is_single = ground (arith, public);
              address = refl;
              port = ap (λ x. x.port) same;
              named =
                  subst
                    (λ h.
                      (is_some_text (pinned (net.is_address host) host (lowest a as') s.server).sni
                        || net.is_address h
                        || not (is_text h))
                      ≡ true)
                    named (pinned_name (net.is_address host) host (lowest a as') s.server);
              no_error = ap (λ x. x.error) same;
            }))
      ]

  connect_to-IsPinned :
      (known : Bool) (s : State X H)
      → s.server ≡ v
      → Outcome
          (λ u s'. IsFailed v s'.server ⊎ IsPinned net v s'.server)
          (λ e s'. s'.server ≡ v)
          (connect_to net known s.server.address s)
  unfolding connect_to resolve ◌>>=◌
  connect_to-IsPinned false s same =
      inl (record { error = refl; same_address = ap (λ x. x.address) same })
  connect_to-IsPinned true s same =
      pin-IsPinned s.turn s.server.address _ _ (ap (λ x. x.address) same)
        (ap (λ x. net.addresses s.turn x.address) same) same

-- A connection that `server_connect` lets through goes to an address that its host resolved to, the
-- lowest of them, public and no multicast; otherwise the connection has an
-- error or the hook raised, and its address is the one that came.
pub server_connect-IsPinned :
    {X H : Type 0} (net : Net X) (s : State X H)
    → Outcome
        (λ u s'. IsFailed s.server s'.server ⊎ IsPinned net s.server s'.server)
        (λ e s'. s'.server ≡ s.server)
        (server_connect net s)
unfolding server_connect ◌>>=◌ IsServer
server_connect-IsPinned {X = X} {H = H} net s =
    (Yields-bind {P = λ s'. s'.server ≡ s.server} {X = λ e s'. s'.server ≡ s.server}
        {R = λ names s'. s'.server ≡ s.server}
        {Q = λ u s'. IsFailed s.server s'.server ⊎ IsPinned net s.server s'.server} (upstreams net)
        _ (Yields-Keeps (upstreams {H = H} net) (λ e s' h. h) (upstreams-IsServer net s.server))
        (λ names. record {
          at = λ s' same. connect_to-IsPinned net s.server s'.upstreams_known s' same;
        })).at
      s refl
