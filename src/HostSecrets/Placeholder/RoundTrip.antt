-- ===== src/HostSecrets/Placeholder/RoundTrip.antt =====
-- A placeholder that is printed is read back (src/host_secrets/placeholder.py).
use drukbox.Base.{
  ℕ, zero, suc, ◌+◌, ◌*◌, ◌/◌, ◌%◌, ◌^◌, ◌<◌, ◌≡◌, refl, ap, sym, ◌∙◌, Bool, true, false, not, ◌&&◌,
  ◌||◌, some, List, [], ◌∷◌, ◌++◌, ◌==◌, leb, length, All, arith, length-append, keep_if,
  Option-cases, inl, inr,
}
use drukbox.Exchange.Secret.{codes}
use drukbox.HostSecrets.Placeholder.{
  Placeholder, hex_digit, hex, hex_value, hex_number, uuid, strip, drop_text, is_brace, strip_start,
  strip_end, bare_digits, split_dot, remove_prefix, prefix, from_parts, read, print,
}
use mathlib.Core.List.{append_assoc, append-nil}

-- The codes that `hex` writes.
abbrev pub is_hex : ℕ → Bool
is_hex c = leb b'0' c && leb c b'9' || leb b'a' c && leb c b'f'

abbrev pub HasNoDot : List ℕ → Type 0
HasNoDot = All (λ c. (c == b'.') ≡ false)

AllHex : List ℕ → Type 0
AllHex = All (λ c. is_hex c ≡ true)

All-append : (P : ℕ → Type 0) (a b : List ℕ) → All P a → All P b → All P (a ++ b)
All-append P [] b h k = k
All-append P (x ∷ a) b h k = (h.0, All-append P a b h.1 k)

hex_digit-is_hex : (d : ℕ) → d < 16 → is_hex (hex_digit d) ≡ true
hex_digit-is_hex d h = ground arith

hex_value-hex_digit : (d : ℕ) → d < 16 → hex_value (hex_digit d) ≡ some d
unfolding hex_value
hex_value-hex_digit d h = ground arith

length-hex : (count n : ℕ) → length (hex count n) ≡ count
unfolding hex
length-hex zero n = refl
length-hex (suc count) n =
    length-append (hex count (n / 16)) _ ∙ omega (arith, length-hex count (n / 16))

hex-AllHex : (count n : ℕ) → AllHex (hex count n)
unfolding hex AllHex
hex-AllHex zero n = tt
hex-AllHex (suc count) n =
    All-append _ (hex count (n / 16)) _ (hex-AllHex count (n / 16))
      (hex_digit-is_hex (n % 16) (omega arith), tt)

hex_number-append :
    (a m d c : ℕ) (s : List ℕ)
    → hex_number a s ≡ some m
    → hex_value c ≡ some d
    → hex_number a (s ++ c ∷ []) ≡ some (m * 16 + d)
unfolding hex_number
hex_number-append a m d c [] h v = ground (arith, h, v)
hex_number-append a m d c (x ∷ s) h v = elim (Option-cases (hex_value x)) [
  | inl refused ↦ absurd (ground (arith, h, refused))
  | inr (k, known) ↦
      rw (known, hex_number) (hex_number-append (a * 16 + k) m d c s (ground (arith, h, known)) v)
]

hex_number-hex : (count n : ℕ) → n < 16 ^ count → hex_number 0 (hex count n) ≡ some n
unfolding hex hex_number
hex_number-hex zero n h = ground arith
hex_number-hex (suc count) n h =
    hex_number-append 0 (n / 16) (n % 16) _ (hex count (n / 16))
      (hex_number-hex count (n / 16) (omega arith)) (hex_value-hex_digit (n % 16) (omega arith))
    ∙ ap some (omega arith)

hex-apart : (p c : ℕ) → is_hex p ≡ false → is_hex c ≡ true → (p == c) ≡ false
hex-apart p c f h = ground arith

is_brace-is_hex : (c : ℕ) → is_hex c ≡ true → is_brace c ≡ false
is_brace-is_hex c h = ground arith

-- What `uuid.UUID` drops is in no hexadecimal text.
drop_text-AllHex :
    (p : ℕ) (ps s : List ℕ) → is_hex p ≡ false → AllHex s → drop_text (p ∷ ps) 0 s ≡ s
unfolding drop_text strip AllHex
drop_text-AllHex p ps [] f h = refl
drop_text-AllHex p ps (c ∷ cs) f h =
    rw (hex-apart p c f h.0) (ap (λ l. c ∷ l) (drop_text-AllHex p ps cs f h.1))

strip_start-AllHex : (s : List ℕ) → AllHex s → strip_start s ≡ s
unfolding strip_start AllHex
strip_start-AllHex [] h = refl
strip_start-AllHex (c ∷ cs) h = ground arith

strip_end-AllHex : (s : List ℕ) → AllHex s → strip_end s ≡ s
unfolding strip_end AllHex
strip_end-AllHex [] h = refl
strip_end-AllHex (c ∷ cs) h = rw (strip_end-AllHex cs h.1, is_brace-is_hex c h.0) (ground arith)

keep_if-AllHex : (s : List ℕ) → AllHex s → keep_if (λ c. not (c == b'-')) s ≡ s
unfolding AllHex
keep_if-AllHex [] h = refl
keep_if-AllHex (c ∷ cs) h = ground (arith, keep_if-AllHex cs)

bare_digits-AllHex : (s : List ℕ) → AllHex s → bare_digits s ≡ s
unfolding bare_digits
bare_digits-AllHex s h =
    rw
      (
        drop_text-AllHex b'u' _ s refl h,
        drop_text-AllHex b'u' _ s refl h,
        strip_start-AllHex s h,
        strip_end-AllHex s h,
      )
      (keep_if-AllHex s h)

uuid-hex : (n : ℕ) → n < 16 ^ 32 → uuid (hex 32 n) ≡ some n
unfolding uuid
uuid-hex n h =
    rw (bare_digits-AllHex (hex 32 n) (hex-AllHex 32 n), length-hex 32 n) (hex_number-hex 32 n h)

split_dot-append :
    (part s rest : List ℕ)
    → HasNoDot s
    → split_dot part (s ++ b'.' ∷ rest) ≡ (part ++ s) ∷ split_dot [] rest
unfolding split_dot
split_dot-append part [] rest h = ap (λ l. l ∷ split_dot [] rest) (sym (append-nil part))
split_dot-append part (c ∷ cs) rest h = rw h.0 (
    split_dot-append (part ++ c ∷ []) cs rest h.1
    ∙ ap (λ l. l ∷ split_dot [] rest) (append_assoc part (c ∷ []) cs))

split_dot-last : (part s : List ℕ) → HasNoDot s → split_dot part s ≡ (part ++ s) ∷ []
unfolding split_dot
split_dot-last part [] h = ap (λ l. l ∷ []) (sym (append-nil part))
split_dot-last part (c ∷ cs) h =
    rw h.0
      (split_dot-last (part ++ c ∷ []) cs h.1 ∙ ap (λ l. l ∷ []) (append_assoc part (c ∷ []) cs))

hex-HasNoDot : (s : List ℕ) → AllHex s → HasNoDot s
unfolding AllHex
hex-HasNoDot [] h = tt
hex-HasNoDot (c ∷ cs) h = (ground arith, hex-HasNoDot cs h.1)

split_dot-print :
    (p : Placeholder)
    → HasNoDot p.service
    → HasNoDot p.secret
    → split_dot [] (print p) ≡ prefix ∷ hex 32 p.host_id ∷ p.service ∷ p.secret ∷ []
unfolding print
split_dot-print p sv sc =
    let digits = hex 32 p.host_id in
    split_dot-append [] prefix _ (ground arith)
    ∙ ap (λ l. prefix ∷ l)
        (split_dot-append [] digits _ (hex-HasNoDot digits (hex-AllHex 32 p.host_id))
          ∙ ap (λ l. digits ∷ l)
              (split_dot-append [] p.service _ sv
                ∙ ap (λ l. p.service ∷ l) (split_dot-last [] p.secret sc)))

-- A placeholder that is printed is read back, alone or after `Bearer `, when its id has 128 bits and
-- its service and its secret have no dot.
pub read-print :
    (p : Placeholder)
    → p.host_id < 16 ^ 32
    → HasNoDot p.service
    → HasNoDot p.secret
    → (read (print p) ≡ some p) × (read (codes "Bearer " ++ print p) ≡ some p)
unfolding read remove_prefix strip from_parts print
read-print p i sv sc = (parts, parts)
  where
    parts : from_parts (split_dot [] (print p)) ≡ some p
    parts = rw (split_dot-print p sv sc, uuid-hex p.host_id i) refl
