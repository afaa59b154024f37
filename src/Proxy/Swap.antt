-- ===== src/Proxy/Swap.antt =====
-- deploy/proxy/swap.py: `Swap.requestheaders` and `Swap.swap`.
pub mod Multidict
pub mod Swapped
pub mod Backed
use drukbox.Base.{
  ℕ, String, Bool, true, false, not, Option, none, some, List, [], ◌∷◌, ◌++◌, if◌then◌else◌, str_eq,
  is_empty, is_some, is_some_text, text_or, any,
}
use drukbox.Base.Op.{Result, ok, err, pure, raise, gets, lift, modify, pass, attempt, ◌>>=◌, ◌>>◌}
use drukbox.HostSecrets.Placeholder.{code_eq}
use drukbox.Exchange.Secret.{codes}
use drukbox.Proxy.Header.{lower, placeholder_in, hostname}
use drukbox.Proxy.Client.{Answer, Fault, refused, exchange_unavailable, value_error, read_answer}
use drukbox.Proxy.Addon.{
  Act, Flow, Headers, Net, State, Server, is_same_name, respond, refuse_unreachable,
}

-- The header fields with a placeholder, and the placeholders.
unfoldable pub found_in :
    (List ℕ → Option (List ℕ)) → List (List ℕ × List ℕ) → List (List ℕ × List ℕ)
found_in decode [] = []
found_in decode ((name, value) ∷ fields) =
    let rest = found_in decode fields in
    elim (placeholder_in decode value) [ none ↦ rest | some p ↦ (name, p) ∷ rest ]

-- `{name.lower() for name, _ in found}`
unfoldable pub names_of : List (List ℕ × List ℕ) → List (List ℕ)
names_of [] = []
names_of ((name, p) ∷ found) =
    let rest = names_of found in if any (code_eq (lower name)) rest then rest else lower name ∷ rest

-- `authority == approved.lower()`, of an authority that may be None.
unfoldable pub is_authority : String → Option (List ℕ) → Bool
is_authority approved none = false
is_authority approved (some authority) = code_eq authority (lower (codes approved))

module _ {H : Type 0} (multidict : Headers H) where
  unfoldable pub remove_all : List (List ℕ) → H → H
  remove_all [] h = h
  remove_all (name ∷ names) h = remove_all names (multidict.remove name h)

  unfoldable pub set_all : List (List ℕ × List ℕ) → H → H
  set_all [] h = h
  set_all ((header, credential) ∷ credentials) h =
      set_all credentials (multidict.set header credential h)

module _ {X H : Type 0} (net : Net X) (multidict : Headers H) where
  -- `self.exchange.authorize`
  unfoldable pub ask : List ℕ → String → Act X H (List ℕ × List ℕ)
  ask placeholder host s =
      let r = net.authorize placeholder host s.exchange in
      (read_answer r.0, record s { exchange = r.1 })

  -- The raise of `ask`: an answer for two of them; the others leave the hook.
  unfoldable pub refuse : Fault → Act X H (Option (List (List ℕ × List ℕ)))
  refuse refused = do modify (respond 403 "placeholder refused\n"); pure none
  refuse exchange_unavailable = do modify (respond 503 "exchange unavailable\n"); pure none
  refuse e = raise e

  -- One answer: a new credential goes on to the next placeholder.
  unfoldable pub take_answer :
      List (List ℕ × List ℕ)
      → (List (List ℕ × List ℕ) → Act X H (Option (List (List ℕ × List ℕ))))
      → Result Fault (List ℕ × List ℕ)
      → Act X H (Option (List (List ℕ × List ℕ)))
  unfolding refuse
  take_answer credentials next (err e) = refuse e
  take_answer credentials next (ok (header, credential)) =
      if any (λ c. is_same_name c.0 header) credentials
      then (do modify (respond 403 "placeholders conflict\n"); pure none)
      else next (credentials ++ (header, credential) ∷ [])

  -- The loop of `swap`. The dictionary of credentials is a list in its order; none stands for a
  -- return out of `swap`.
  unfoldable pub authorize_all :
      String
      → List (List ℕ × List ℕ)
      → List (List ℕ × List ℕ)
      → Act X H (Option (List (List ℕ × List ℕ)))
  unfolding ask take_answer
  authorize_all approved [] credentials = pure (some credentials)
  authorize_all approved ((name, placeholder) ∷ found) credentials = do
    answer ← attempt (ask placeholder approved)
    take_answer credentials (λ cs. authorize_all approved found cs) answer

  -- All placeholders are replaced at once.
  unfoldable pub replace :
      List (List ℕ × List ℕ) → Option (List (List ℕ × List ℕ)) → Act X H (Unit {0})
  unfolding remove_all set_all names_of
  replace found none = pass
  replace found (some credentials) = modify (λ s. record s {
    flow = record s.flow {
      headers =
          set_all multidict credentials (remove_all multidict (names_of found) s.flow.headers);
    };
  })

  unfoldable pub swap_approved :
      String → List (List ℕ × List ℕ) → Option (List ℕ) → Act X H (Unit {0})
  unfolding authorize_all replace is_authority
  swap_approved approved found authority =
      if is_authority approved authority
      then (do credentials ← authorize_all approved found []; replace found credentials)
      else modify (respond 403 "host does not match the connection\n")

  -- The authority that the request names must be the host of the connection.
  unfoldable pub swap_for :
      String → List (List ℕ × List ℕ) → Option (Option (List ℕ)) → Act X H (Unit {0})
  unfolding swap_approved
  swap_for approved found none = raise value_error
  swap_for approved found (some authority) = swap_approved approved found authority

  -- `Swap.swap`
  unfoldable pub swap : List (List ℕ × List ℕ) → Act X H (Unit {0})
  unfolding swap_for hostname
  swap found = do
    approved ← gets (λ s. text_or s.server.sni s.flow.host)
    header ← gets (λ s. s.flow.host_header)
    swap_for approved found (hostname (codes (text_or header "")))

  unfoldable pub swap_found : List (List ℕ × List ℕ) → Act X H (Unit {0})
  unfolding swap
  swap_found found = if is_empty found then pass else swap found

  -- `Swap.requestheaders`
  unfoldable pub requestheaders : Act X H (Unit {0})
  unfolding refuse_unreachable swap_found found_in
  requestheaders = do
    scheme ← gets (λ s. s.flow.scheme)
    host ← gets (λ s. s.flow.host)
    headers ← gets (λ s. s.flow.headers)
    if not (str_eq scheme "https")
        then refuse_unreachable net host
        else swap_found (found_in net.decode (multidict.items headers))
    modify (λ s. record s { flow = record s.flow { stream = not (is_some s.flow.response) } })
