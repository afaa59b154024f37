-- ===== src/Vendors/Exe/Script.antt =====
-- src/providers/exe/api.py: the setup script as an argument of `new`, over code points.
pub mod RoundTrip
use drukbox.Base.{
  ℕ, String, Bool, true, false, not, ◌&&◌, Option, none, some, List, [], ◌∷◌, ◌++◌, leb, ◌==◌,
  if◌then◌else◌, is_empty, is_some, length, keep_if, lookup,
}
use drukbox.Base.Op.{Result, ok, err}
use drukbox.Exchange.Secret.{codes}
use drukbox.Providers.Environment.{
  Variables, first_line, get_export, get_bashrc, get_install_ca, get_github, join_lines,
}

-- `str.replace` of one character.
unfoldable pub replace_code : ℕ → List ℕ → List ℕ → List ℕ
replace_code c by [] = []
replace_code c by (d ∷ ds) =
    let rest = replace_code c by ds in if d == c then by ++ rest else d ∷ rest

-- `_encode_setup_script`: backslashes, quotes and newlines, in this order, inside quotes.
unfoldable pub encode_setup_script : List ℕ → List ℕ
unfolding replace_code
encode_setup_script script =
    34
    ∷ (replace_code 10 (92 ∷ b'n' ∷ [])
          (replace_code 34 (92 ∷ 34 ∷ []) (replace_code 92 (92 ∷ 92 ∷ []) script))
        ++ 34 ∷ [])

-- `SETUP_SCRIPT_LIMIT`
abbrev pub setup_script_limit : ℕ
setup_script_limit = 10240

abbrev pub given_or : Option (List ℕ) → List ℕ → List ℕ
given_or none other = other
given_or (some []) other = other
given_or (some (c ∷ cs)) other = c ∷ cs

-- The script of a machine with variables: the shebang, the variables, the proxy's certificate, git's
-- setup, then the rest of the script. An error is the text of the `ValueError` of `get_export`.
unfoldable pub setup_script : Variables → Option (List ℕ) → Result String (Option (List ℕ))
unfolding first_line get_export get_bashrc get_install_ca get_github join_lines
setup_script [] script = ok script
setup_script (v ∷ env) script =
    let parts = first_line (given_or script (codes "#!/bin/bash")) in
    elim (get_export (v ∷ env)) [
      | err text ↦ err text
      | ok exports ↦ elim (get_bashrc (v ∷ env)) [
        | err text ↦ err text
        | ok bashrc ↦ ok (
            some (
              join_lines (
                keep_if (λ part. not (is_empty part))
                  ((parts.0 ∷ exports)
                    ++ ((bashrc ∷ get_install_ca true (v ∷ env))
                        ++ (get_github true (v ∷ env) ++ parts.1 ∷ []))))))
      ]
    ]

-- The argument of the script, or its length if it is over the limit.
unfoldable pub script_argument : Option (List ℕ) → Result ℕ (List (List ℕ))
unfolding encode_setup_script
script_argument none = ok []
script_argument (some []) = ok []
script_argument (some (c ∷ cs)) =
    let encoded = encode_setup_script (c ∷ cs) in
    if leb (length encoded) setup_script_limit
    then ok ((codes "--setup-script=" ++ encoded) ∷ [])
    else err (length encoded)
