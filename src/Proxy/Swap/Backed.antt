-- ===== src/Proxy/Swap/Backed.antt =====
-- The addon of deploy/proxy/swap.py against the exchange of src/secrets_exchange/app.py.
use drukbox.Base.{
  ℕ, String, ◌≡◌, sym, ap, ◌⊎◌, inl, inr, none, some, List, [], ◌∷◌, ◌++◌, text_or, arith,
}
use drukbox.Base.Op.{Result, ok, err}
use drukbox.Base.Keeps.{Outcome, Outcome-map}
use drukbox.Exchange.Secret.{codes}
use drukbox.Exchange.Table.{Table, Fault as ExchangeFault}
use drukbox.Exchange.Authorize.{
  Response, forbidden, retry_after, granted, server_error, Site, authorize,
}
use drukbox.Exchange.Authorize.Grant.{Grant, IsJustified, authorize-IsJustified}
use drukbox.Proxy.Client.{Answer, answered, read_answer}
use drukbox.Proxy.Addon.{Flow, Headers, Net, State}
use drukbox.Proxy.Swap.{swap}
use drukbox.Proxy.Swap.Multidict.{MultidictLaws}
use drukbox.Proxy.Swap.Swapped.{
  IsGranted, AreGranted, IsRefused, IsSwapped, IsAnswered, swap-IsAnswered,
}

-- The answer of `authorize` as HTTP: what it raises is the server's error.
unfoldable pub as_http : Result ExchangeFault Response → Answer
as_http (ok forbidden) = answered 403 none none
as_http (ok retry_after) = answered 503 none none
as_http (ok (granted host header given)) = answered 200 (some (codes header)) (some (codes given))
as_http (ok server_error) = answered 500 none none
as_http (err e) = answered 500 none none

-- The client of the exchange as it stands: `Exchange.authorize` asks `authorize`.
unfoldable pub through : Site → Net Table → Net Table
unfolding as_http
through site net = record net {
  authorize = λ placeholder host t.
      let r = authorize site (codes "Bearer " ++ placeholder) host t in (as_http r.0, r.1);
}

-- The credential is one that the exchange is justified to give.
pub record Backed (site : Site) (approved : String) (placeholder : List ℕ)
    (credential : List ℕ × List ℕ) : Type 0 where
  pub start : Table
  pub end : Table
  pub host : String
  pub header : String
  pub given : String
  pub grant : Grant site (codes "Bearer " ++ placeholder) approved start end host header given
  pub same : credential ≡ (codes header, codes given)

abbrev pub AreBacked : Site → String → List (List ℕ × List ℕ) → List (List ℕ × List ℕ) → Type 0
AreBacked site approved [] [] = Unit
AreBacked site approved ((name, p) ∷ found) (c ∷ cs) =
    Backed site approved p c × AreBacked site approved found cs
AreBacked site approved _ _ = ⊥

module _ (site : Site) (net : Net Table) (approved : String) where
  http-Backed :
      (p : List ℕ) (c : List ℕ × List ℕ) (t : Table) (r : Result ExchangeFault Response × Table)
      → Outcome (IsJustified site (codes "Bearer " ++ p) approved t) (λ e t'. ⊥) r
      → read_answer (as_http r.0) ≡ ok c
      → Backed site approved p c
  unfolding read_answer as_http
  http-Backed p c t (ok forbidden, t') why h = absurd (ground arith)
  http-Backed p c t (ok retry_after, t') why h = absurd (ground arith)
  http-Backed p c t (ok server_error, t') why h = absurd (ground arith)
  http-Backed p c t (err e, t') why h = absurd why
  http-Backed p c t (ok (granted host header given), t') why h = record {
    start = t;
    end = t';
    host = host;
    header = header;
    given = given;
    grant = why;
    same = ap (λ x. elim x [ ok a ↦ a | err e ↦ c ]) (sym h);
  }

  granted-Backed :
      (p : List ℕ) (c : List ℕ × List ℕ)
      → IsGranted (through site net) approved p c
      → Backed site approved p c
  unfolding through
  granted-Backed p c (t, given) =
      http-Backed p c t (authorize site (codes "Bearer " ++ p) approved t)
        (authorize-IsJustified site (codes "Bearer " ++ p) approved t) given

  all_granted-AreBacked :
      (found cs : List (List ℕ × List ℕ))
      → AreGranted (through site net) approved found cs
      → AreBacked site approved found cs
  all_granted-AreBacked [] [] h = tt
  all_granted-AreBacked (f ∷ found) [] h = absurd h
  all_granted-AreBacked [] (c ∷ cs) h = absurd h
  all_granted-AreBacked ((name, p) ∷ found) (c ∷ cs) (given, rest) =
      (granted-Backed p c given, all_granted-AreBacked found cs rest)

-- What the request has become when `swap` returns.
abbrev pub IsAnsweredByExchange :
    {H : Type 0} (site : Site) (net : Net Table) (multidict : Headers H) (approved : String)
    (found : List (List ℕ × List ℕ)) (m : List ℕ) (before after : Flow H)
    → Type 0
IsAnsweredByExchange site net multidict approved found m before after =
    IsRefused before after
    ⊎ ((swapped : IsSwapped (through site net) multidict approved found m before after) × AreBacked
          site approved found swapped.credentials)

-- With the exchange of the repository behind it, `swap` sends a request on only with credentials
-- that the exchange was justified to give, one for each placeholder that the request carried: the
-- placeholder names a host that is there, the secret is registered for that host, the placeholder's
-- own secret has its fingerprint and the connection goes to an upstream of its service. Otherwise
-- the request is answered and its headers are the ones that came; a raise leaves the request alone.
pub swap-IsBacked :
    {H : Type 0} (site : Site) (net : Net Table) (multidict : Headers H)
    (laws : MultidictLaws multidict) (m : List ℕ) (found : List (List ℕ × List ℕ))
    (s : State Table H)
    → Outcome
        (λ u s'.
          IsAnsweredByExchange site net multidict
            (text_or s.server.sni s.flow.host)
            found
            m
            s.flow
            s'.flow)
        (λ e s'. s'.flow ≡ s.flow)
        (swap (through site net) multidict found s)
swap-IsBacked site net multidict laws m found s =
    Outcome-map
      (λ u.
        IsAnswered (through site net) multidict laws m (text_or s.server.sni s.flow.host) found
          s.flow)
      (λ u s'.
        IsAnsweredByExchange site net multidict (text_or s.server.sni s.flow.host) found m s.flow
          s'.flow)
      (λ e s'. s'.flow ≡ s.flow) (swap (through site net) multidict found s)
      (λ u s'. elim [
        | inl refused ↦ inl refused
        | inr swapped ↦ inr (
          swapped,
          all_granted-AreBacked site net _ found swapped.credentials swapped.all_granted,
        )
      ])
      (swap-IsAnswered (through site net) multidict laws m found s)
