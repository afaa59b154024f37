-- ===== src/Providers/Environment/Quoting.antt =====
-- What a shell reads from a quoted text.
use drukbox.Base.{
  ℕ, Bool, true, false, not, ◌&&◌, ◌||◌, ◌≡◌, refl, Option, none, some, List, [], ◌∷◌, ◌++◌, ◌==◌,
  all, if◌then◌else◌, arith, is_empty, Bool-cases, inl, inr,
}
use drukbox.Providers.Environment.{quote, escaped, is_safe}

-- How a POSIX shell reads one word: bare, inside single quotes, inside double quotes. A bare
-- character counts only if it has no meaning of its own to the shell; inside double quotes this
-- reader takes what is neither `"`, `$`, a backquote nor a backslash.
pub data Mode : Type 0 where
  bare single double : Mode

abbrev pub is_inert : ℕ → Bool
is_inert c = not (c == 34 || c == 36 || c == 96 || c == 92)

-- The mode after a character, and whether the character belongs to the word.
unfoldable pub shift : Mode → ℕ → Option (Mode × Bool)
shift bare c =
    if c == 39
    then some (single, false)
    else if c == 34
    then some (double, false)
    else if is_safe c
    then some (bare, true)
    else none
shift single c = if c == 39 then some (bare, false) else some (single, true)
shift double c =
    if c == 34 then some (bare, false) else if is_inert c then some (double, true) else none

abbrev prepend : Bool → ℕ → Option (List ℕ) → Option (List ℕ)
prepend keep c none = none
prepend keep c (some word) = some (if keep then c ∷ word else word)

-- The one word that a text is, or none.
pub read_word : Mode → List ℕ → Option (List ℕ)
unfolding shift
read_word bare [] = some []
read_word _ [] = none
read_word mode (c ∷ cs) = elim (shift mode c) [
  | none ↦ none
  | some (next, keep) ↦ prepend keep c (read_word next cs)
]

read_word-safe : (s : List ℕ) → all is_safe s ≡ true → read_word bare s ≡ some s
unfolding read_word
read_word-safe [] h = refl
read_word-safe (c ∷ cs) h = ground (arith, read_word-safe cs)

read_word-escaped : (s : List ℕ) → read_word single (escaped s ++ 39 ∷ []) ≡ some s
unfolding read_word escaped
read_word-escaped [] = refl
read_word-escaped (c ∷ cs) = ground (arith, read_word-escaped cs)

-- A shell reads a quoted text back as one word, which is the text: whatever the text holds, it
-- neither ends the word nor runs as a command.
pub read_word-quote : (s : List ℕ) → read_word bare (quote s) ≡ some s
unfolding quote read_word
read_word-quote s = elim (Bool-cases (not (is_empty s) && all is_safe s)) [
  | inl plain ↦ rw plain (read_word-safe s (ground arith))
  | inr other ↦ rw other (ground (arith, read_word-escaped s))
]
