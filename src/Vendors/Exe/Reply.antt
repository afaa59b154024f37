-- ===== src/Vendors/Exe/Reply.antt =====
-- src/providers/exe/api.py: what the API answers, `_request` and `_parse_json_response`.
use drukbox.Base.{
  ℕ, String, Bool, not, ◌&&◌, ◌||◌, Option, none, some, List, [], ◌∷◌, ◌++◌, ltb, leb, ◌==◌,
  if◌then◌else◌, is_empty, is_some, map, keep_if, update,
}
use drukbox.Base.Op.{Result, ok, err}
use drukbox.Exchange.Secret.{codes}
use drukbox.HostSecrets.Placeholder.{strip}
use drukbox.Proxy.Header.{lower, strip_left, strip_right, strip_blank}

-- The exceptions of src/providers/exe/exceptions.py; the last two are the KeyError and the ValueError
-- of a payload that is not as expected.
pub data ExeError : Type 0 where
  exe_auth : ExeError
  exe_response : ExeError
  exe_command : List ℕ → ExeError
  exe_vm_not_found : String → ExeError
  integration_not_found : String → ExeError
  integration_exists : String → ExeError
  key_error : ExeError
  value_error : ExeError

-- A JSON text, as far as the code looks into it: an object with its members as `str` writes them and
-- the members of its `vms`, a list with the names of its objects, or something else.
pub data Json : Type 0 where
  object : (members : List (String × String)) (vms : Option (List (List (String × String)))) → Json
  array : List (Option String) → Json
  scalar : Json

-- What httpx hands back: a RequestError, or a status and a text.
pub data Reply : Type 0 where
  unreachable : Reply
  replied : (status : ℕ) (text : List ℕ) → Reply

abbrev pub is_client_error : ℕ → Bool
is_client_error status = leb 400 status && ltb status 500

-- `_request`, once the reply is there. A detail that is empty stands for the status.
unfoldable pub read_reply : Reply → Result ExeError (List ℕ)
unfolding strip_left strip_right
read_reply unreachable = err exe_response
read_reply (replied status text) =
    if status == 401
    then err exe_auth
    else if is_client_error status
    then err (exe_command (strip_blank text))
    else if leb 500 status
    then err exe_response
    else ok text

-- The line ends of `str.splitlines`.
abbrev pub ends_line : ℕ → Bool
ends_line c = leb 10 c && leb c 13 || leb 28 c && leb c 30 || c == 133 || c == 8232 || c == 8233

unfoldable pub split_lines : List ℕ → List ℕ → List (List ℕ)
split_lines line [] = line ∷ []
split_lines line (c ∷ cs) =
    if ends_line c then line ∷ split_lines [] cs else split_lines (line ++ c ∷ []) cs

-- The stripped lines that are not blank.
unfoldable pub chunks_of : List ℕ → List (List ℕ)
unfolding split_lines strip_left strip_right
chunks_of text = keep_if (λ line. not (is_empty line)) (map strip_blank (split_lines [] text))

module _ (loads : List ℕ → Option Json) where
  unfoldable pub load_all : List (List ℕ) → Option (List Json)
  load_all [] = some []
  load_all (chunk ∷ chunks) =
      let rest = load_all chunks in
      elim (loads chunk) [
        | none ↦ none
        | some json ↦ elim rest [ none ↦ none | some parsed ↦ some (json ∷ parsed) ]
      ]

-- The later `vms` stands.
abbrev pub later_vms :
    Option (List (List (String × String)))
    → Option (List (List (String × String)))
    → Option (List (List (String × String)))
later_vms first none = first
later_vms first (some vms) = some vms

-- `merged.update(chunk)` for objects; none if one chunk is no object.
unfoldable pub merge :
    List (String × String) → Option (List (List (String × String))) → List Json → Option Json
merge members vms [] = some (object members vms)
merge members vms (object more others ∷ chunks) =
    merge (update members more) (later_vms vms others) chunks
merge members vms (array names ∷ chunks) = none
merge members vms (scalar ∷ chunks) = none

unfoldable pub join_chunks : List Json → Result ExeError Json
unfolding merge
join_chunks [] = err exe_response
join_chunks (json ∷ []) = ok json
join_chunks (json ∷ more ∷ chunks) = elim (merge [] none (json ∷ more ∷ chunks)) [
  | none ↦ err exe_response
  | some merged ↦ ok merged
]

-- `_parse_json_response`; `loads` is `json.loads`, none for a JSONDecodeError.
unfoldable pub parse_json_response : (List ℕ → Option Json) → List ℕ → Result ExeError Json
unfolding load_all join_chunks chunks_of
parse_json_response loads text = elim (loads text) [
  | some json ↦ ok json
  | none ↦ elim (load_all loads (chunks_of text)) [
    | none ↦ err exe_response
    | some parsed ↦ join_chunks parsed
  ]
]

-- `needle in text`
unfoldable pub contains : List ℕ → List ℕ → Bool
unfolding strip
contains needle [] = is_empty needle
contains needle (c ∷ cs) = let rest = contains needle cs in is_some (strip needle (c ∷ cs)) || rest

-- `"not found" in str(exc).lower()` and the like.
unfoldable pub mentions : String → List ℕ → Bool
unfolding contains
mentions phrase detail = contains (codes phrase) (lower detail)

-- `_raise_attachment_error`: words of an integration first, then the machine.
unfoldable pub attachment_error : String → String → List ℕ → ExeError
unfolding mentions
attachment_error integration vm detail =
    if not (mentions "not found" detail)
    then exe_command detail
    else if mentions "integration" detail
        || mentions "http-proxy" detail
        || mentions "http_proxy" detail
    then integration_not_found integration
    else exe_vm_not_found vm
