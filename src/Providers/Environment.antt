-- ===== src/Providers/Environment.antt =====
-- src/providers/environment.py: the shell text that puts the caller's variables into a sandbox, over
-- code points.
pub mod Quoting
pub mod Words
pub mod Accepted
use Prim.Native.String as Text
use drukbox.Base.{
  ℕ, suc, ◌+◌, String, Bool, true, false, not, ◌&&◌, ◌||◌, List, [], ◌∷◌, ◌++◌, ltb, leb, ◌==◌,
  if◌then◌else◌, is_empty, is_some, all, length, keep_if, lookup,
}
use drukbox.Base.Op.{Result, ok, err}
use drukbox.Exchange.Secret.{codes}

abbrev pub Variables : Type 0
Variables = List (String × String)

abbrev pub is_letter : ℕ → Bool
is_letter c = leb b'A' c && leb c b'Z' || leb b'a' c && leb c b'z'

abbrev pub is_digit : ℕ → Bool
is_digit c = leb b'0' c && leb c b'9'

-- `_NAME_RE`, on the whole name
unfoldable pub is_name : List ℕ → Bool
is_name [] = false
is_name (c ∷ cs) =
    (is_letter c || c == b'_') && all (λ d. is_letter d || is_digit d || d == b'_') cs

-- The class of VALUE_PATTERN without the space: `[!$-&(-\[\]-~]`.
abbrev pub is_plain : ℕ → Bool
is_plain c =
    c == b'!' || leb b'$' c && leb c b'&' || leb b'(' c && leb c b'[' || leb b']' c && leb c b'~'

unfoldable pub is_value_rest : List ℕ → Bool
is_value_rest [] = true
is_value_rest (c ∷ []) = is_plain c
is_value_rest (c ∷ d ∷ ds) = (is_plain c || c == b' ') && is_value_rest (d ∷ ds)

-- `_VALUE_RE`, on the whole value
unfoldable pub is_value : List ℕ → Bool
unfolding is_value_rest
is_value [] = true
is_value (c ∷ cs) = is_plain c && is_value_rest cs

-- `LINE_LIMIT`
abbrev pub line_limit : ℕ
line_limit = 8191

-- What `shlex.quote` leaves as it is.
abbrev pub is_safe : ℕ → Bool
is_safe c =
    is_letter c
    || is_digit c
    || c == b'@'
    || c == b'%'
    || c == b'+'
    || c == b'='
    || c == b':'
    || c == b','
    || c == b'.'
    || c == b'/'
    || c == b'-'
    || c == b'_'

-- `s.replace("'", "'\"'\"'")`
unfoldable pub escaped : List ℕ → List ℕ
escaped [] = []
escaped (c ∷ cs) = if c == 39 then 39 ∷ 34 ∷ 39 ∷ 34 ∷ 39 ∷ escaped cs else c ∷ escaped cs

-- `shlex.quote`
unfoldable pub quote : List ℕ → List ℕ
unfolding escaped
quote s = if not (is_empty s) && all is_safe s then s else 39 ∷ (escaped s ++ 39 ∷ [])

abbrev pub assignment : String → String → List ℕ
assignment key value = codes key ++ b'=' ∷ codes value

abbrev pub wrong_name : String → String
wrong_name key = Text.◌++◌ "invalid VM environment variable name: " key

-- The text of the `ValueError` for an entry that is refused.
unfoldable pub complaint : String → String → String
unfolding is_name is_value
complaint key value =
    if not (is_name (codes key))
    then wrong_name key
    else if not (is_value (codes value))
    then Text.◌++◌ "env value must be printable ASCII without #, quotes, backslashes, "
        (Text.◌++◌ "or a space at either end: " key)
    else Text.◌++◌ "env entry is longer than 8191 bytes: " key

-- `get_export`; the error is the text of the `ValueError`.
unfoldable pub get_export : Variables → Result String (List (List ℕ))
get_export [] = ok []
get_export ((key, value) ∷ env) =
    let rest = get_export env in
    if is_name (codes key)
    then elim rest [
      | err e ↦ err e
      | ok lines ↦ ok ((codes "export " ++ (codes key ++ b'=' ∷ quote (codes value))) ∷ lines)
    ]
    else err (wrong_name key)

-- The tests of one round of `get_persist`.
unfoldable pub is_persistent : String → String → Bool
unfolding is_name is_value
is_persistent key value =
    is_name (codes key)
    && is_value (codes value)
    && leb (suc (length (assignment key value))) line_limit

unfoldable pub persist_line : String → String → List ℕ
unfolding quote
persist_line key value =
    codes "printf '%s\\n' " ++ (quote (assignment key value) ++ codes " >> /etc/environment")

-- `get_persist`
unfoldable pub get_persist : Variables → Result String (List (List ℕ))
unfolding is_persistent persist_line complaint
get_persist [] = ok []
get_persist ((key, value) ∷ env) =
    let rest = get_persist env in
    if is_persistent key value
    then elim rest [ err e ↦ err e | ok lines ↦ ok (persist_line key value ∷ lines) ]
    else err (complaint key value)

-- `"\n".join`
unfoldable pub join_lines : List (List ℕ) → List ℕ
join_lines [] = []
join_lines (line ∷ []) = line
join_lines (line ∷ next ∷ lines) = line ++ 10 ∷ join_lines (next ∷ lines)

-- `get_bashrc`; the error is that of `get_export`.
unfoldable pub get_bashrc : Variables → Result String (List ℕ)
unfolding get_export join_lines
get_bashrc env = elim (get_export env) [
  | err e ↦ err e
  | ok lines ↦ ok (
      join_lines (
        codes "cat > ~/.bashrc.new <<'DRUKBOX_ENV'"
        ∷ (lines
            ++ codes "DRUKBOX_ENV"
              ∷ codes "cat ~/.bashrc >> ~/.bashrc.new && mv ~/.bashrc.new ~/.bashrc"
              ∷ [])))
]

abbrev pub has_variable : String → Variables → Bool
has_variable name env = is_some (lookup name env)

-- `get_install_ca`; `sudo` comes first.
unfoldable pub get_install_ca : Bool → Variables → List (List ℕ)
get_install_ca sudo env =
    let privileged : List ℕ = if sudo then codes "sudo -n " else [] in
    if has_variable "SECRETS_PROXY_CA" env
    then (codes "printf '%s' \"$SECRETS_PROXY_CA\" | base64 -d | "
        ++ (privileged
            ++ codes "tee /usr/local/share/ca-certificates/drukbox.crt >/dev/null || exit 1"))
      ∷ (privileged ++ codes "update-ca-certificates >/dev/null || exit 1")
      ∷ []
    else []

-- `get_github`
unfoldable pub get_github : Bool → Variables → List (List ℕ)
get_github sudo env =
    let git : List ℕ = (if sudo then codes "sudo -n " else []) ++ codes "git config --system" in
    if has_variable "GH_TOKEN" env
    then (git ++ codes " --replace-all credential.https://github.com.helper '' || exit 1")
      ∷ (git
          ++ codes
              " --add credential.https://github.com.helper '!gh auth git-credential' || exit 1")
      ∷ (git ++ codes " --replace-all url.https://github.com/.insteadOf git@github.com: || exit 1")
      ∷ (git ++ codes " --add url.https://github.com/.insteadOf ssh://git@github.com/ || exit 1")
      ∷ []
    else []

abbrev pub starts_with : List ℕ → List ℕ → Bool
starts_with [] text = true
starts_with (c ∷ cs) [] = false
starts_with (c ∷ cs) (d ∷ ds) = (c == d) && starts_with cs ds

-- `partition("\n")`: the first line, and what follows it.
unfoldable pub first_line : List ℕ → List ℕ × List ℕ
first_line [] = ([], [])
first_line (c ∷ cs) = let rest = first_line cs in if c == 10 then ([], cs) else (c ∷ rest.0, rest.1)

-- `get_cloud_init`
unfoldable pub get_cloud_init : List ℕ → Variables → Result String (List ℕ)
unfolding get_export get_persist get_install_ca get_github first_line join_lines
get_cloud_init setup_script env =
    let script : List ℕ =
      if starts_with (codes "#!") setup_script
      then setup_script
      else codes "#!/bin/sh" ++ 10 ∷ setup_script in
    let parts = first_line script in
    elim (get_export env) [
      | err e ↦ err e
      | ok exports ↦ elim (get_persist env) [
        | err e ↦ err e
        | ok persists ↦ ok (
            join_lines (
              keep_if (λ line. not (is_empty line))
                ((parts.0 ∷ exports)
                  ++ (persists
                      ++ (get_install_ca false env ++ (get_github false env ++ parts.1 ∷ []))))))
      ]
    ]
