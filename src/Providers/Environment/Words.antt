-- ===== src/Providers/Environment/Words.antt =====
-- The words that a shell reads in a line of src/providers/environment.py or of the exe.dev adapter.
use drukbox.Base.{
  ℕ, true, false, not, ◌&&◌, ◌≡◌, sym, ap, ◌∙◌, Option, none, some, List, [], ◌∷◌, ◌++◌, ◌==◌,
  if◌then◌else◌, all, is_empty, arith, inl, inr, Bool-cases, ==→eq,
}
use mathlib.Core.List.{append_assoc, append-nil}
use drukbox.Providers.Environment.{quote, escaped, is_safe}
use drukbox.Providers.Environment.Quoting.{Mode, bare, single, shift}

abbrev pub first_word : List ℕ → Option (List (List ℕ)) → Option (List (List ℕ))
first_word word none = none
first_word word (some words) = some (word ∷ words)

-- The words of a line, with the part of the first that is read; a blank outside quotes ends a word.
unfoldable pub read_words : Mode → List ℕ → List ℕ → Option (List (List ℕ))
unfolding shift
read_words bare word [] = some (word ∷ [])
read_words _ word [] = none
read_words bare word (c ∷ cs) =
    let ended = read_words bare [] cs in
    let going = elim (shift bare c) as (λ x. Option (List (List ℕ))) [
      | none ↦ none
      | some (next, keep) ↦ read_words next (if keep then word ++ c ∷ [] else word) cs
    ] in
    if c == b' ' then first_word word ended else going
read_words mode word (c ∷ cs) = elim (shift mode c) [
  | none ↦ none
  | some (next, keep) ↦ read_words next (if keep then word ++ c ∷ [] else word) cs
]

safe-plain :
    (c : ℕ) → is_safe c ≡ true → ((c == b' ') ≡ false) × ((c == 39) ≡ false) × ((c == 34) ≡ false)
safe-plain c h = (ground (arith, h), ground (arith, h), ground (arith, h))

-- The part reads as the text, wherever it stands in a word.
abbrev pub IsWord : List ℕ → List ℕ → Type 0
IsWord part text =
    (word rest : List ℕ) → read_words bare word (part ++ rest) ≡ read_words bare (word ++ text) rest

pub safe-IsWord : (s : List ℕ) → all is_safe s ≡ true → IsWord s s
unfolding read_words
safe-IsWord [] h word rest = ap (λ w. read_words bare w rest) (sym (append-nil word))
safe-IsWord (c ∷ s) h word rest =
    let safe : is_safe c ≡ true = ground (arith, h) in
    let plain = safe-plain c safe in
    rw plain.0 (
      rw plain.1 (
        rw plain.2 (
          rw safe (
            safe-IsWord s (ground (arith, h)) (word ++ c ∷ []) rest
            ∙ ap (λ w. read_words bare w rest) (append_assoc word (c ∷ []) s)))))

escaped-read :
    (s word rest : List ℕ)
    → read_words single word (escaped s ++ 39 ∷ rest) ≡ read_words bare (word ++ s) rest
unfolding read_words escaped
escaped-read [] word rest = ap (λ w. read_words bare w rest) (sym (append-nil word))
escaped-read (c ∷ s) word rest = elim (Bool-cases (c == 39)) [
  | inl mark ↦ rw (==→eq c 39 mark) (
      escaped-read s (word ++ 39 ∷ []) rest
      ∙ ap (λ w. read_words bare w rest) (append_assoc word (39 ∷ []) s))
  | inr other ↦ rw other (
      rw (other, read_words)
        (escaped-read s (word ++ c ∷ []) rest
          ∙ ap (λ w. read_words bare w rest) (append_assoc word (c ∷ []) s)))
]

pub quote-IsWord : (s : List ℕ) → IsWord (quote s) s
unfolding quote read_words
quote-IsWord s word rest = elim (Bool-cases (not (is_empty s) && all is_safe s)) [
  | inl plain ↦ rw plain (safe-IsWord s (ground (arith, plain)) word rest)
  | inr other ↦ rw other (
      ap (read_words single word) (append_assoc (escaped s) (39 ∷ []) rest)
      ∙ escaped-read s word rest)
]

pub append-IsWord : (a b s t : List ℕ) → IsWord a s → IsWord b t → IsWord (a ++ b) (s ++ t)
append-IsWord a b s t p q word rest =
    ap (read_words bare word) (append_assoc a b rest)
    ∙ p word (b ++ rest)
    ∙ q (word ++ s) rest
    ∙ ap (λ w. read_words bare w rest) (append_assoc word s t)
