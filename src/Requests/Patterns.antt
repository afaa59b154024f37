-- ===== src/Requests/Patterns.antt =====
-- The patterns of src/host_secrets/schemas.py and of src/hosts/api.py, over code points.
use drukbox.Base.{
  ℕ, Bool, false, not, ◌&&◌, ◌||◌, List, [], ◌∷◌, leb, ◌==◌, all, any, length, is_empty,
}
use drukbox.Exchange.Secret.{codes}
use drukbox.HostSecrets.Placeholder.{split_dot}
use drukbox.Providers.Environment.{is_letter, is_digit}

abbrev pub is_alphanumeric : ℕ → Bool
is_alphanumeric c = is_letter c || is_digit c

abbrev pub is_small : ℕ → Bool
is_small c = leb b'a' c && leb c b'z'

abbrev pub is_member : List ℕ → ℕ → Bool
is_member text c = any (λ d. d == c) text

-- Does the last one pass the test; an empty text has none.
unfoldable pub last_is : (ℕ → Bool) → List ℕ → Bool
last_is p [] = false
last_is p (c ∷ []) = p c
last_is p (c ∷ d ∷ ds) = last_is p (d ∷ ds)

abbrev pub first_is : (ℕ → Bool) → List ℕ → Bool
first_is p [] = false
first_is p (c ∷ cs) = p c

-- One label of a host: up to 63 letters, digits and inner dashes.
unfoldable pub is_label : List ℕ → Bool
unfolding last_is
is_label text =
    first_is is_alphanumeric text
    && last_is is_alphanumeric text
    && all (λ c. is_alphanumeric c || c == b'-') text
    && leb (length text) 63

-- HOST_PATTERN
unfoldable pub is_host : List ℕ → Bool
unfolding is_label split_dot
is_host text = all is_label (split_dot [] text)

-- SECRET_NAME_PATTERN
unfoldable pub is_secret_name : List ℕ → Bool
is_secret_name [] = false
is_secret_name (c ∷ cs) =
    is_small c
    && all (λ d. is_small d || is_digit d || d == b'_' || d == b'-') cs
    && leb (length cs) 63

-- REFRESH_PATTERN
unfoldable pub is_refresh_tail : List ℕ → Bool
is_refresh_tail [] = false
is_refresh_tail (c ∷ []) = is_member (codes "smhd") c
is_refresh_tail (c ∷ d ∷ ds) = is_digit c && is_refresh_tail (d ∷ ds)

unfoldable pub is_refresh : List ℕ → Bool
unfolding is_refresh_tail
is_refresh [] = false
is_refresh (c ∷ cs) = leb b'1' c && leb c b'9' && is_refresh_tail cs

-- HeaderName
unfoldable pub is_header_name : List ℕ → Bool
is_header_name text =
    not (is_empty text)
    && all (λ c. is_alphanumeric c || is_member (codes "!#$%&'*+.^_`|~-") c) text

-- `isascii() and isprintable()`
abbrev pub is_printable : List ℕ → Bool
is_printable text = all (λ c. leb 32 c && leb c 126) text

-- The pattern and the length of the `Idempotency-Key` header.
unfoldable pub is_idempotency_key : List ℕ → Bool
is_idempotency_key text =
    not (is_empty text)
    && leb (length text) 255
    && all (λ c. is_alphanumeric c || is_member (codes "_-:.") c) text
