-- ===== src/Vendors/Exe/Script/RoundTrip.antt =====
-- The setup script of src/providers/exe/api.py as exe.dev's command parser reads it.
use drukbox.Base.{
  ℕ, ◌≡◌, refl, ap, ◌∙◌, Bool, true, false, Option, none, some, List, [], ◌∷◌, ◌++◌, ◌==◌,
  if◌then◌else◌, inl, inr, Bool-cases, ==→eq,
}
use drukbox.Vendors.Exe.Script.{replace_code, encode_setup_script}

-- What follows a backslash inside double quotes, as the documentation of exe.dev has it.
abbrev pub unescaped : ℕ → Option ℕ
unescaped c =
    if c == b'n' then some 10 else if c == 34 then some 34 else if c == 92 then some 92 else none

abbrev prepend : Option ℕ → Option (List ℕ × List ℕ) → Option (List ℕ × List ℕ)
prepend none o = none
prepend (some c) none = none
prepend (some c) (some (text, rest)) = some (c ∷ text, rest)

-- The text up to the closing quote, and what follows it; `escape` is after a backslash.
read_quoted : (escape : Bool) → List ℕ → Option (List ℕ × List ℕ)
read_quoted escape [] = none
read_quoted true (c ∷ cs) = prepend (unescaped c) (read_quoted false cs)
read_quoted false (c ∷ cs) =
    let escaped = read_quoted true cs in
    let rest = read_quoted false cs in
    if c == 92 then escaped else if c == 34 then some ([], cs) else prepend (some c) rest

escape_all : List ℕ → List ℕ
unfolding replace_code
escape_all script =
    replace_code 10 (92 ∷ b'n' ∷ [])
      (replace_code 34 (92 ∷ 34 ∷ []) (replace_code 92 (92 ∷ 92 ∷ []) script))

read_quoted-escape_all :
    (script rest : List ℕ)
    → read_quoted false (escape_all script ++ 34 ∷ rest) ≡ some (script, rest)
unfolding read_quoted escape_all replace_code
read_quoted-escape_all [] rest = refl
read_quoted-escape_all (c ∷ cs) rest = elim (Bool-cases (c == 92)) [
  | inl slash ↦ rw (==→eq c 92 slash) (ap (prepend (some 92)) (read_quoted-escape_all cs rest))
  | inr a ↦ elim (Bool-cases (c == 34)) [
    | inl quote ↦ rw (==→eq c 34 quote) (ap (prepend (some 34)) (read_quoted-escape_all cs rest))
    | inr b ↦ elim (Bool-cases (c == 10)) [
      | inl newline ↦
          rw (==→eq c 10 newline) (ap (prepend (some 10)) (read_quoted-escape_all cs rest))
      | inr d ↦
          rw a (rw b (rw d (rw a (rw b (ap (prepend (some c)) (read_quoted-escape_all cs rest))))))
    ]
  ]
]

append_quote : (a b rest : List ℕ) → (a ++ b) ++ rest ≡ a ++ (b ++ rest)
append_quote [] b rest = refl
append_quote (c ∷ a) b rest = ap (λ t. c ∷ t) (append_quote a b rest)

-- An argument in double quotes, and what follows it.
pub read_argument : List ℕ → Option (List ℕ × List ℕ)
unfolding read_quoted
read_argument [] = none
read_argument (c ∷ cs) = if c == 34 then read_quoted false cs else none

-- The command parser of exe.dev reads an encoded setup script back as the script itself and goes on
-- right behind it: whatever the script holds, it does not end its argument.
pub read_argument-encode_setup_script :
    (script rest : List ℕ)
    → read_argument (encode_setup_script script ++ rest) ≡ some (script, rest)
unfolding encode_setup_script read_argument escape_all
read_argument-encode_setup_script script rest =
    ap (read_quoted false) (append_quote (escape_all script) (34 ∷ []) rest)
    ∙ read_quoted-escape_all script rest
