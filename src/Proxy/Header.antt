-- ===== src/Proxy/Header.antt =====
-- deploy/proxy/swap.py: `placeholder_in`, and the authority of a request, over code points.
use drukbox.Base.{
  ℕ, ◌+◌, Bool, not, ◌&&◌, ◌||◌, Option, none, some, List, [], ◌∷◌, leb, ◌==◌, if◌then◌else◌,
  is_some, is_empty, any, count_if, map, keep_if, ◌++◌,
}
use drukbox.HostSecrets.Placeholder.{strip, code_eq}
use drukbox.Exchange.Secret.{codes}

-- `str.lower`, of ASCII.
abbrev pub lower_code : ℕ → ℕ
lower_code c = if leb b'A' c && leb c b'Z' then c + 32 else c

abbrev pub lower : List ℕ → List ℕ
lower = map lower_code

-- `str.partition(mark)`: the text before the first mark, and the text after it if it is there.
unfoldable pub partition : ℕ → List ℕ → List ℕ × Option (List ℕ)
partition mark [] = ([], none)
partition mark (c ∷ cs) =
    let rest = partition mark cs in if c == mark then ([], some cs) else (c ∷ rest.0, rest.1)

abbrev pub after : Option (List ℕ) → List ℕ
after none = []
after (some rest) = rest

-- The white space of `str.strip`, up to U+00A0.
abbrev pub is_blank : ℕ → Bool
is_blank c = leb 9 c && leb c 13 || leb 28 c && leb c 32 || c == 133 || c == 160

unfoldable pub strip_left : List ℕ → List ℕ
strip_left [] = []
strip_left (c ∷ cs) = let rest = strip_left cs in if is_blank c then rest else c ∷ cs

unfoldable pub strip_right : List ℕ → List ℕ
strip_right [] = []
strip_right (c ∷ cs) =
    let rest = strip_right cs in if is_empty rest && is_blank c then [] else c ∷ rest

abbrev pub strip_blank : List ℕ → List ℕ
strip_blank text = strip_right (strip_left text)

-- `candidate.startswith(_PLACEHOLDER_PREFIX) and candidate.count(".") == 3`
abbrev pub is_placeholder : List ℕ → Bool
unfolding strip
is_placeholder candidate =
    is_some (strip (codes "drk.") candidate) && count_if (λ c. c == b'.') candidate == 3

-- The part of a header's value that may be a placeholder. `decode` is base64 decoding followed by
-- UTF-8 decoding, none for what it refuses.
unfoldable pub candidate_in : (List ℕ → Option (List ℕ)) → List ℕ → List ℕ
unfolding partition strip_left strip_right
candidate_in decode value =
    let parts = partition b' ' value in
    let scheme = lower parts.0 in
    let rest = strip_blank (after parts.1) in
    if code_eq scheme (codes "bearer") || code_eq scheme (codes "token")
    then rest
    else if code_eq scheme (codes "basic")
    then elim (decode rest) [ none ↦ [] | some pair ↦ after (partition b':' pair).1 ]
    else value

-- `placeholder_in`; none stands for the empty text.
unfoldable pub placeholder_in : (List ℕ → Option (List ℕ)) → List ℕ → Option (List ℕ)
unfolding candidate_in is_placeholder
placeholder_in decode value =
    let candidate = candidate_in decode value in
    if is_placeholder candidate then some candidate else none

-- The network location of `//text`: up to the first of / ? #.
unfoldable pub location : List ℕ → List ℕ
location [] = []
location (c ∷ cs) =
    let rest = location cs in if c == b'/' || c == b'?' || c == b'#' then [] else c ∷ rest

-- `rpartition("@")`: the text after the last mark, the whole text without one.
unfoldable pub after_user : List ℕ → List ℕ
after_user [] = []
after_user (c ∷ cs) =
    let rest = after_user cs in
    if any (λ d. d == b'@') cs then rest else if c == b'@' then cs else c ∷ cs

-- `SplitResult.hostname`; none stands for None. The zone of an address keeps its case.
unfoldable pub hostname_of : List ℕ → Option (List ℕ)
unfolding partition after_user
hostname_of netloc =
    let info = after_user netloc in
    let host : List ℕ = elim (partition b'[' info).1 [
      | some bracketed ↦ (partition b']' bracketed).0
      | none ↦ (partition b':' info).0
    ] in
    let zoned = partition b'%' host in
    if is_empty host
    then none
    else some (lower zoned.0 ++ elim zoned.1 [ none ↦ [] | some zone ↦ b'%' ∷ zone ])

-- `urlsplit(f"//{text}").hostname`. The outer none is the ValueError of one bracket without the
-- other; `urlsplit` takes out tabs and line ends first. Its checks that brackets hold an IP address and
-- that NFKC adds no delimiter are left out.
unfoldable pub hostname : List ℕ → Option (Option (List ℕ))
unfolding location hostname_of
hostname text =
    let netloc = location (keep_if (λ c. not (c == 9 || c == 10 || c == 13)) text) in
    let opened = any (λ c. c == b'[') netloc in
    let closed = any (λ c. c == b']') netloc in
    if opened && not closed || closed && not opened then none else some (hostname_of netloc)
