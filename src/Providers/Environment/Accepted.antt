-- ===== src/Providers/Environment/Accepted.antt =====
-- What the entries that `get_persist` accepts look like.
use drukbox.Base.{
  refl, ap, sym, ◌∙◌, false, all, Option, none, some, ◌++◌, if◌then◌else◌, ℕ, suc, ◌+◌, ◌≤◌, String,
  true, ◌≡◌, ◌≢◌, List, [], ◌∷◌, arith, leb, length, All, Bool-cases, inl, inr, map, ◌||◌, ◌==◌,
}
use drukbox.Base.Op.{ok, Result-cases}
use mathlib.Core.Bool.{and-eq-true_iff}
use mathlib.Core.List.{append-nil}
use drukbox.Exchange.Secret.{codes}
use drukbox.Providers.Environment.Quoting.{bare}
use drukbox.Providers.Environment.Words.{first_word, read_words, quote-IsWord}
use drukbox.Providers.Environment.{
  quote, is_letter, is_digit, is_name, Variables, is_plain, is_value, is_value_rest, is_persistent,
  get_persist, assignment, line_limit, persist_line,
}

-- A character that pam_env takes for itself: printable, and no comment, quote or backslash.
abbrev pub IsUnchanged : ℕ → Type 0
IsUnchanged c = (32 ≤ c) × (c ≤ 126) × (c ≢ b'#') × (c ≢ 34) × (c ≢ 39) × (c ≢ 92)

-- The last character of a text, and a text with no space at either end.
abbrev pub EndsPlain : List ℕ → Type 0
EndsPlain [] = Unit {0}
EndsPlain (c ∷ []) = c ≢ 32
EndsPlain (c ∷ d ∷ ds) = EndsPlain (d ∷ ds)

abbrev pub StartsPlain : List ℕ → Type 0
StartsPlain [] = Unit {0}
StartsPlain (c ∷ cs) = c ≢ 32

spaced-IsUnchanged : (c : ℕ) → (is_plain c || c == b' ') ≡ true → IsUnchanged c
spaced-IsUnchanged c h = ground arith

is_value_rest-All : (s : List ℕ) → is_value_rest s ≡ true → All IsUnchanged s × EndsPlain s
unfolding is_value_rest
is_value_rest-All [] h = (tt, tt)
is_value_rest-All (c ∷ []) h = ground arith
is_value_rest-All (c ∷ d ∷ ds) h =
    let (first, others) = (and-eq-true_iff _ _).0 h in
    let (unchanged, last) = is_value_rest-All (d ∷ ds) others in
    ((spaced-IsUnchanged c first, unchanged), last)

-- The key of an assignment and its value: what stands before and after the first `=`.
abbrev with_key : ℕ → Option (List ℕ × List ℕ) → Option (List ℕ × List ℕ)
with_key c none = none
with_key c (some (key, value)) = some (c ∷ key, value)

pub read_assignment : List ℕ → Option (List ℕ × List ℕ)
read_assignment [] = none
read_assignment (c ∷ cs) =
    let rest = read_assignment cs in if c == b'=' then some ([], cs) else with_key c rest

-- The words that a shell finds in a command that prints the line with a newline.
abbrev pub printing : List ℕ → List (List ℕ)
printing line = codes "printf" ∷ codes "%s\\n" ∷ line ∷ []

-- Run by a shell, the line of an entry prints one line and appends it to the file: it is not longer than the limit,
-- its key and its value are read back at its first `=`, and the value has only characters that
-- stand for themselves, with no space at either end.
pub record IsKept (entry : String × String) : Type 0 where
  pub line : List ℕ
  pub command : List ℕ
  pub redirected : persist_line entry.0 entry.1 ≡ command ++ codes " >> /etc/environment"
  pub runs : read_words bare [] command ≡ some (printing line)
  pub read_back : read_assignment line ≡ some (codes entry.0, codes entry.1)
  pub unchanged : All IsUnchanged (codes entry.1)
  pub starts : StartsPlain (codes entry.1)
  pub ends : EndsPlain (codes entry.1)
  pub fits : length line + 1 ≤ line_limit

name_code : (c : ℕ) → (is_letter c || is_digit c || c == b'_') ≡ true → (c == b'=') ≡ false
name_code c h = ground (arith, h)

read_assignment-rest :
    (key value : List ℕ)
    → all (λ d. is_letter d || is_digit d || d == b'_') key ≡ true
    → read_assignment (key ++ b'=' ∷ value) ≡ some (key, value)
unfolding read_assignment
read_assignment-rest [] value h = refl
read_assignment-rest (c ∷ cs) value h =
    let (first, others) = (and-eq-true_iff _ _).0 h in
    rw (name_code c first) (ap (with_key c) (read_assignment-rest cs value others))

read_assignment-name :
    (key value : List ℕ)
    → is_name key ≡ true
    → read_assignment (key ++ b'=' ∷ value) ≡ some (key, value)
unfolding is_name read_assignment
read_assignment-name [] value h = absurd (ground (arith, h))
read_assignment-name (c ∷ cs) value h =
    let (first, others) =
      (and-eq-true_iff (is_letter c || c == b'_')
          (all (λ d. is_letter d || is_digit d || d == b'_') cs)).0
        h in
    rw (name_code c (ground (arith, first)))
      (ap (with_key c) (read_assignment-rest cs value others))

abbrev print_command : String → String → List ℕ
print_command key value = codes "printf '%s\\n' " ++ quote (assignment key value)

persist_line-print :
    (key value : String)
    → persist_line key value ≡ print_command key value ++ codes " >> /etc/environment"
unfolding persist_line
persist_line-print key value = refl

print_command-words :
    (key value : String)
    → read_words bare [] (print_command key value) ≡ some (printing (assignment key value))
unfolding read_words
print_command-words key value =
    ap (λ o. first_word (codes "printf") (first_word (codes "%s\\n") o))
      (ap (read_words bare []) (sym (append-nil (quote (assignment key value))))
        ∙ quote-IsWord (assignment key value) [] [])

is_value-All : (s : List ℕ) → is_value s ≡ true → All IsUnchanged s × StartsPlain s × EndsPlain s
unfolding is_value
is_value-All [] h = (tt, tt, tt)
is_value-All (c ∷ []) h = ground arith
is_value-All (c ∷ d ∷ ds) h =
    let (first, others) = (and-eq-true_iff (is_plain c) (is_value_rest (d ∷ ds))).0 h in
    let (unchanged, last) = is_value_rest-All (d ∷ ds) others in
    ((spaced-IsUnchanged c (rw first), unchanged), ground arith, last)

fits_limit : (n : ℕ) → leb (suc n) line_limit ≡ true → n + 1 ≤ line_limit
fits_limit n h = ground arith

is_persistent-IsKept : (key value : String) → is_persistent key value ≡ true → IsKept (key, value)
unfolding is_persistent
is_persistent-IsKept key value h =
    let (both, fits) = (and-eq-true_iff _ _).0 h in
    let (named, valued) = (and-eq-true_iff _ _).0 both in
    let (unchanged, starts, ends) = is_value-All (codes value) valued in
    record {
      line = assignment key value;
      command = print_command key value;
      redirected = persist_line-print key value;
      runs = print_command-words key value;
      read_back = read_assignment-name (codes key) (codes value) named;
      unchanged = unchanged;
      starts = starts;
      ends = ends;
      fits = fits_limit _ fits;
    }

-- `get_persist` returns one line for each variable. A shell that runs it appends to /etc/environment one
-- line of at most 8190 characters, from which the key and the value are read back at the first `=`;
-- the value is printable, has no comment sign, quote or backslash and no space at either end.
pub get_persist-IsKept :
    (env : Variables) (lines : List (List ℕ))
    → get_persist env ≡ ok lines
    → (lines ≡ map (λ e. persist_line e.0 e.1) env) × All IsKept env
unfolding get_persist
get_persist-IsKept [] lines h = (ground arith, tt)
get_persist-IsKept ((key, value) ∷ env) lines h = elim (Bool-cases (is_persistent key value)) [
  | inr refused ↦ absurd (ground arith)
  | inl kept ↦ elim (Result-cases (get_persist env)) [
    | inl (e, failed) ↦ absurd (ground arith)
    | inr (others, done) ↦
        let (same, all_kept) = get_persist-IsKept env others done in
        (ground (arith, same), (is_persistent-IsKept key value kept, all_kept))
  ]
]
