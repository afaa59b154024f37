-- ===== src/Proxy/Swap/Swapped.antt =====
-- What `Swap.swap` of deploy/proxy/swap.py does to a request.
use drukbox.Base.{
  ℕ, String, ◌≡◌, refl, sym, ap, ◌∙◌, ◌⊎◌, inl, inr, true, Option, none, some, List, [], ◌∷◌, ◌++◌,
  is_some, text_or, any, Bool-cases, Option-cases,
}
use mathlib.Core.List.{append_assoc, append-nil}
use drukbox.Base.Op.{Result, ok, err, resume, pure, ◌>>=◌}
use drukbox.Base.Keeps.{Outcome}
use drukbox.HostSecrets.Placeholder.{code_eq}
use drukbox.Exchange.Secret.{codes}
use drukbox.Proxy.Header.{lower, hostname}
use drukbox.Proxy.Client.{Fault, refused, exchange_unavailable, key_error, value_error, read_answer}
use drukbox.Proxy.Addon.{Flow, Headers, Net, State, is_same_name}
use drukbox.Proxy.Swap.Multidict.{
  MultidictLaws, values_of, credential_for, swapped_values, set_all-values, remove_all-values,
  code_eq→eq, names_of-found, swapped_values-removed,
}
use drukbox.Proxy.Swap.{
  names_of, remove_all, ask, refuse, take_answer, authorize_all, replace, is_authority,
  swap_approved, swap_for, swap,
}

-- The exchange gave the credential for the placeholder at this host.
abbrev pub IsGranted : {X : Type 0} → Net X → String → List ℕ → List ℕ × List ℕ → Type 0
IsGranted {X = X} net approved placeholder credential =
    (x : X) × (read_answer (net.authorize placeholder approved x).0 ≡ ok credential)

-- Each placeholder has its credential, in order.
abbrev pub AreGranted :
    {X : Type 0} → Net X → String → List (List ℕ × List ℕ) → List (List ℕ × List ℕ) → Type 0
AreGranted net approved [] [] = Unit
AreGranted net approved ((name, p) ∷ found) (c ∷ cs) =
    IsGranted net approved p c × AreGranted net approved found cs
AreGranted net approved _ _ = ⊥

-- A request that is refused is answered, and its headers are the ones that came.
pub record IsRefused {H : Type 0} (before after : Flow H) : Type 0 where
  pub answered : is_some after.response ≡ true
  pub untouched : after.headers ≡ before.headers

-- A request that goes on names the host of the connection. Each placeholder has been replaced by the
-- credential that the exchange gave for it at this host: of the header `m` the values are its
-- credential alone, or none if a placeholder stood there, or the ones that came.
pub record IsSwapped {X H : Type 0} (net : Net X) (multidict : Headers H) (approved : String)
    (found : List (List ℕ × List ℕ)) (m : List ℕ) (before after : Flow H) : Type 0 where
  pub credentials : List (List ℕ × List ℕ)
  pub authority :
      hostname (codes (text_or before.host_header "")) ≡ some (some (lower (codes approved)))
  pub all_granted : AreGranted net approved found credentials
  pub same_response : after.response ≡ before.response
  pub values :
      values_of multidict m after.headers
      ≡ swapped_values
          (credential_for m credentials)
          (any (λ f. is_same_name f.0 m) found)
          (values_of multidict m before.headers)

module _ {X H : Type 0} (net : Net X) (approved : String) (f : Flow H) where
  -- What the loop leaves: nothing is changed but the answer of a refusal.
  abbrev Authorized :
      List (List ℕ × List ℕ)
      → List (List ℕ × List ℕ)
      → Option (List (List ℕ × List ℕ))
      → State X H
      → Type 0
  Authorized found done none s = IsRefused f s.flow
  Authorized found done (some credentials) s =
      (s.flow ≡ f)
      × (cs : List (List ℕ × List ℕ)) × (credentials ≡ done ++ cs)
      × AreGranted net approved found cs

  abbrev Unchanged : Fault → State X H → Type 0
  Unchanged e s = s.flow ≡ f

  module _ (multidict : Headers H) where
    refuse-Authorized :
        (found done : List (List ℕ × List ℕ)) (e : Fault) (s : State X H)
        → s.flow ≡ f
        → Outcome (Authorized found done) Unchanged (refuse net multidict e s)
    unfolding refuse ◌>>=◌
    refuse-Authorized found done refused s same = record {
      answered = refl;
      untouched = ap (λ g. g.headers) same;
    }
    refuse-Authorized found done exchange_unavailable s same = record {
      answered = refl;
      untouched = ap (λ g. g.headers) same;
    }
    refuse-Authorized found done key_error s same = same
    refuse-Authorized found done value_error s same = same

    grown-Authorized :
        (name p : List ℕ) (found done : List (List ℕ × List ℕ)) (c : List ℕ × List ℕ)
        (r : Result Fault (Option (List (List ℕ × List ℕ))) × State X H)
        → IsGranted net approved p c
        → Outcome (Authorized found (done ++ c ∷ [])) Unchanged r
        → Outcome (Authorized ((name, p) ∷ found) done) Unchanged r
    grown-Authorized name p found done c (err e, s) granted h = h
    grown-Authorized name p found done c (ok none, s) granted h = h
    grown-Authorized name p found done c (ok (some credentials), s) granted
          (same, cs, grown, all_granted) =
        (same, c ∷ cs, grown ∙ append_assoc done (c ∷ []) cs, (granted, all_granted))

    take_answer-Authorized :
        (name p : List ℕ) (found done : List (List ℕ × List ℕ)) (r : Result Fault (List ℕ × List ℕ))
        (s : State X H)
        → s.flow ≡ f
        → ((c : List ℕ × List ℕ) → r ≡ ok c → IsGranted net approved p c)
        → ((done' : List (List ℕ × List ℕ))
            → Outcome
                (Authorized found done')
                Unchanged
                (authorize_all net multidict approved found done' s))
        → Outcome (Authorized ((name, p) ∷ found) done) Unchanged (
            take_answer net multidict done
              (λ cs. authorize_all net multidict approved found cs)
              r
              s)
    unfolding take_answer ◌>>=◌
    take_answer-Authorized name p found done (err e) s same granted next =
        refuse-Authorized ((name, p) ∷ found) done e s same
    take_answer-Authorized name p found done (ok (header, credential)) s same granted next =
        elim (Bool-cases (any (λ c. is_same_name c.0 header) done)) [
          | inl conflict ↦
              rw conflict (record { answered = refl; untouched = ap (λ g. g.headers) same })
          | inr new ↦ rw new (
              grown-Authorized name p found done (header, credential) _
                (granted (header, credential) refl) (next (done ++ (header, credential) ∷ [])))
        ]

    authorize_all-Authorized :
        (found done : List (List ℕ × List ℕ)) (s : State X H)
        → s.flow ≡ f
        → Outcome
            (Authorized found done)
            Unchanged
            (authorize_all net multidict approved found done s)
    unfolding authorize_all pure ◌>>=◌ ask
    authorize_all-Authorized [] done s same = (same, [], sym (append-nil done), tt)
    authorize_all-Authorized ((name, p) ∷ found) done s same =
        take_answer-Authorized name p found done _ _ same (λ c given. (s.exchange, given))
          λ done'. authorize_all-Authorized found done' _ same

module _ {X H : Type 0} (net : Net X) (multidict : Headers H) (laws : MultidictLaws multidict)
    (m : List ℕ) where
  abbrev pub IsAnswered : String → List (List ℕ × List ℕ) → Flow H → State X H → Type 0
  IsAnswered approved found f s =
      IsRefused f s.flow ⊎ IsSwapped net multidict approved found m f s.flow

  replace-IsAnswered :
      (approved : String) (found : List (List ℕ × List ℕ)) (f : Flow H)
      (r : Result Fault (Option (List (List ℕ × List ℕ))) × State X H)
      → hostname (codes (text_or f.host_header "")) ≡ some (some (lower (codes approved)))
      → Outcome (Authorized net approved f found []) (Unchanged net approved f) r
      → Outcome
          (λ u. IsAnswered approved found f)
          (Unchanged net approved f)
          (resume r (replace net multidict found))
  unfolding replace ◌>>=◌
  replace-IsAnswered approved found f (err e, s) authority h = h
  replace-IsAnswered approved found f (ok none, s) authority h = inl h
  replace-IsAnswered approved found f (ok (some credentials), s) authority
        (same, cs, all, granted) =
      inr (record {
        credentials = cs;
        authority = authority;
        all_granted = granted;
        same_response = ap (λ g. g.response) same;
        values = rw all (
            rw same (
              set_all-values multidict laws m cs (remove_all multidict (names_of found) f.headers)
              ∙ (rw (remove_all-values multidict laws m (names_of found) f.headers) (
                  rw (names_of-found m found) (
                    swapped_values-removed (credential_for m cs)
                      (any (λ x. is_same_name x.0 m) found) (values_of multidict m f.headers))))));
      })

-- `swap` either refuses the request, which then has an answer and its headers as they came, or sends
-- it on with every placeholder replaced as `IsSwapped` says, for any header `m`; when it raises it
-- has not touched the request. The headers are a multidict with mitmproxy's laws.
pub swap-IsAnswered :
    {X H : Type 0} (net : Net X) (multidict : Headers H) (laws : MultidictLaws multidict)
    (m : List ℕ) (found : List (List ℕ × List ℕ)) (s : State X H)
    → Outcome
        (λ u. IsAnswered net multidict laws m (text_or s.server.sni s.flow.host) found s.flow)
        (λ e s'. s'.flow ≡ s.flow)
        (swap net multidict found s)
unfolding swap swap_for swap_approved is_authority ◌>>=◌
swap-IsAnswered net multidict laws m found s =
    elim (Option-cases (hostname (codes (text_or s.flow.host_header "")))) [
      | inl unread ↦ rw unread refl
      | inr (none, nameless) ↦ rw nameless (inl (record { answered = refl; untouched = refl }))
      | inr (some authority, named) ↦
          elim (Bool-cases (code_eq authority (lower (codes (text_or s.server.sni s.flow.host))))) [
            | inr other ↦ rw named (rw other (inl (record { answered = refl; untouched = refl })))
            | inl same ↦ rw named (
                rw same (
                  replace-IsAnswered net multidict laws m (text_or s.server.sni s.flow.host) found
                    s.flow _
                    (named
                      ∙ ap (λ a. some (some a))
                          (code_eq→eq authority (lower (codes (text_or s.server.sni s.flow.host)))
                            same))
                    (authorize_all-Authorized net _ s.flow multidict found [] s refl)))
          ]
    ]
