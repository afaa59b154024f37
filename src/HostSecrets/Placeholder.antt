-- ===== src/HostSecrets/Placeholder.antt =====
-- src/host_secrets/placeholder.py, over code points.
pub mod RoundTrip
use drukbox.Base.{
  ℕ, zero, suc, ◌+◌, ◌-◌, ◌*◌, ◌/◌, ◌%◌, Bool, true, false, ◌&&◌, Option, none, some, List, [], ◌∷◌,
  ◌++◌, ltb, leb, ◌==◌, if◌then◌else◌, length, not, ◌||◌, is_some, is_empty, keep_if,
}
use drukbox.Exchange.Secret.{codes}

pub record Placeholder : Type 0 where
  pub host_id : ℕ
  pub service : List ℕ
  pub secret : List ℕ

abbrev pub hex_digit : ℕ → ℕ
hex_digit d = if ltb d 10 then b'0' + d else b'a' + (d - 10)

-- The last `count` hexadecimal digits of a number: `UUID.hex` for 32.
unfoldable pub hex : ℕ → ℕ → List ℕ
hex zero n = []
hex (suc count) n = hex count (n / 16) ++ hex_digit (n % 16) ∷ []

unfoldable pub hex_value : ℕ → Option ℕ
hex_value c =
    if leb b'0' c && leb c b'9'
    then some (c - b'0')
    else if leb b'a' c && leb c b'f'
    then some (c - b'a' + 10)
    else if leb b'A' c && leb c b'F'
    then some (c - b'A' + 10)
    else none

unfoldable pub hex_number : ℕ → List ℕ → Option ℕ
hex_number n [] = some n
hex_number n (c ∷ cs) = elim (hex_value c) [ none ↦ none | some d ↦ hex_number (n * 16 + d) cs ]

unfoldable pub strip : List ℕ → List ℕ → Option (List ℕ)
strip [] text = some text
strip (p ∷ ps) [] = none
strip (p ∷ ps) (c ∷ cs) = if p == c then strip ps cs else none

-- `str.replace(pattern, "")`, with the characters of a match that are still to be dropped.
unfoldable pub drop_text : List ℕ → ℕ → List ℕ → List ℕ
unfolding strip
drop_text pattern n [] = []
drop_text pattern (suc n) (c ∷ cs) = drop_text pattern n cs
drop_text pattern zero (c ∷ cs) =
    let matched = drop_text pattern (length pattern - 1) cs in
    let rest = drop_text pattern 0 cs in
    if is_some (strip pattern (c ∷ cs)) then matched else c ∷ rest

abbrev pub is_brace : ℕ → Bool
is_brace c = c == b'{' || c == b'}'

-- `str.strip("{}")`
unfoldable pub strip_start : List ℕ → List ℕ
strip_start [] = []
strip_start (c ∷ cs) = let rest = strip_start cs in if is_brace c then rest else c ∷ cs

unfoldable pub strip_end : List ℕ → List ℕ
strip_end [] = []
strip_end (c ∷ cs) = let rest = strip_end cs in if is_empty rest && is_brace c then [] else c ∷ rest

-- The text that `uuid.UUID` reads its digits from.
unfoldable pub bare_digits : List ℕ → List ℕ
unfolding drop_text strip_start strip_end
bare_digits text =
    keep_if (λ c. not (c == b'-'))
      (strip_end (strip_start (drop_text (codes "uuid:") 0 (drop_text (codes "urn:") 0 text))))

-- `uuid.UUID`. The sign, blanks, underscores and 0x that its `int` would take among the 32
-- characters are refused.
unfoldable pub uuid : List ℕ → Option ℕ
unfolding hex_number bare_digits
uuid text =
    let digits = bare_digits text in if length digits == 32 then hex_number 0 digits else none

-- `str.split(".")`
unfoldable pub split_dot : List ℕ → List ℕ → List (List ℕ)
split_dot part [] = part ∷ []
split_dot part (c ∷ cs) =
    if c == b'.' then part ∷ split_dot [] cs else split_dot (part ++ c ∷ []) cs

abbrev pub code_eq : List ℕ → List ℕ → Bool
code_eq [] [] = true
code_eq (a ∷ as') (b ∷ bs) = (a == b) && code_eq as' bs
code_eq _ _ = false

-- `str.removeprefix`
unfoldable pub remove_prefix : List ℕ → List ℕ → List ℕ
unfolding strip
remove_prefix prefix text = elim (strip prefix text) [ none ↦ text | some rest ↦ rest ]

-- `_PREFIX`
abbrev pub prefix : List ℕ
prefix = codes "drk"

unfoldable pub from_parts : List (List ℕ) → Option Placeholder
unfolding uuid
from_parts (mark ∷ host_hex ∷ service ∷ secret ∷ []) =
    if code_eq mark prefix
    then elim (uuid host_hex) [
      | none ↦ none
      | some host_id ↦ some (record { host_id = host_id; service = service; secret = secret })
    ]
    else none
from_parts _ = none

-- `Placeholder.read`; none stands for its `ValueError`.
unfoldable pub read : List ℕ → Option Placeholder
unfolding from_parts remove_prefix split_dot
read authorization = from_parts (split_dot [] (remove_prefix (codes "Bearer ") authorization))

-- `Placeholder.__str__`
unfoldable pub print : Placeholder → List ℕ
unfolding hex
print p = prefix ++ b'.' ∷ (hex 32 p.host_id ++ b'.' ∷ (p.service ++ b'.' ∷ p.secret))
