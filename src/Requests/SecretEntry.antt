-- ===== src/Requests/SecretEntry.antt =====
-- src/host_secrets/schemas.py: a registered secret as a request carries it, its validators, and what
-- is stored of it. Of what pydantic is given, none stands for a member that the request leaves out.
use drukbox.Base.{
  String, Bool, true, false, not, ◌&&◌, ◌||◌, Option, none, some, List, leb, if◌then◌else◌, is_text,
  is_some, is_empty, or_else, all, length, lookup,
}
use drukbox.Exchange.Secret.{codes, Issuer}
use drukbox.HostSecrets.Catalog.{Entry, built_in_hosts}
use drukbox.Providers.Environment.{is_name}
use drukbox.Requests.Patterns.{is_host, is_refresh, is_header_name, is_printable}

-- An `HttpUrl` of pydantic: its text, and whether it has a user, a password and a fragment.
pub record Url : Type 0 where
  pub text : String
  pub username : Bool
  pub password : Bool
  pub fragment : Bool

pub record RawIssuer : Type 0 where
  pub url : Url
  pub headers : List (String × String)
  pub refresh : String

pub record RawEntry : Type 0 where
  pub host : Option (Option String)
  pub auth_variable : Option (Option String)
  pub auth_header : Option String
  pub auth_prefix : Option String
  pub value : Option (Option String)
  pub issuer : Option (Option RawIssuer)

-- `SecretEntry`; `service_fields` says that a field of SERVICE_FIELDS was set.
pub record SecretEntry : Type 0 where
  pub host : Option String
  pub auth_variable : Option String
  pub auth_header : String
  pub auth_prefix : String
  pub value : Option String
  pub issuer : Option RawIssuer
  pub service_fields : Bool

abbrev pub given : {A : Type 0} → Option (Option A) → Option A
given none = none
given (some a) = a

-- The fields and the validators of `SecretIssuer`.
unfoldable pub is_issuer : RawIssuer → Bool
unfolding is_refresh is_header_name
is_issuer r =
    not r.url.username
    && not r.url.password
    && not r.url.fragment
    && not (is_empty r.headers)
    && all (λ h. is_header_name (codes h.0) && is_text h.1 && is_printable (codes h.1)) r.headers
    && is_refresh (codes r.refresh)

abbrev pub passes : {A : Type 0} → (A → Bool) → Option A → Bool
passes p none = true
passes p (some a) = p a

-- The fields of `SecretEntry`, each by itself.
unfoldable pub has_valid_fields : RawEntry → Bool
unfolding is_host is_name is_header_name is_issuer
has_valid_fields r =
    passes (λ h. is_host (codes h) && leb (length (codes h)) 253) (given r.host)
    && passes (λ v. is_name (codes v)) (given r.auth_variable)
    && passes (λ h. is_header_name (codes h)) r.auth_header
    && passes is_text (given r.value)
    && passes is_issuer (given r.issuer)

-- The entry before `validate_shape`; `lower` is `str.lower`, which `lower_case` calls.
unfoldable pub entry_of : (String → String) → RawEntry → SecretEntry
entry_of lower r = record {
  host = elim (given r.host) [ none ↦ none | some h ↦ some (if is_text h then lower h else h) ];
  auth_variable = given r.auth_variable;
  auth_header = or_else r.auth_header "Authorization";
  auth_prefix = or_else r.auth_prefix "Bearer ";
  value = given r.value;
  issuer = given r.issuer;
  service_fields =
      is_some r.host || is_some r.auth_variable || is_some r.auth_header || is_some r.auth_prefix;
}

-- `self.host in BUILT_IN_HOSTS`
abbrev pub is_built_in : Option String → Bool
is_built_in none = false
is_built_in (some host) = is_some (lookup host built_in_hosts)

abbrev pub is_named : Option String → Bool
is_named none = false
is_named (some s) = is_text s

-- `validate_shape`
unfoldable pub has_valid_shape : SecretEntry → Bool
has_valid_shape e =
    (is_some e.value && not (is_some e.issuer) || not (is_some e.value) && is_some e.issuer)
    && (not (e.service_fields && not (is_built_in e.host))
        || is_named e.host && is_named e.auth_variable)

-- The whole of the model; none stands for the 422 of a ValidationError.
unfoldable pub parse_entry : (String → String) → RawEntry → Option SecretEntry
unfolding has_valid_fields entry_of has_valid_shape
parse_entry lower r =
    let e = entry_of lower r in if has_valid_fields r && has_valid_shape e then some e else none

-- `SecretIssuer.to_storage`
abbrev pub stored_issuer : RawIssuer → Issuer
stored_issuer r = record { url = r.url.text; headers = r.headers; refresh = r.refresh }

-- `SecretEntry.to_storage`. Of a built-in host the entry keeps only the host; the members that are not
-- stored are empty here and `catalog.service` does not look at them.
unfoldable pub to_storage : SecretEntry → Entry
to_storage e = record {
  value = e.value;
  issuer = elim e.value [
    | some v ↦ none
    | none ↦ elim e.issuer [ none ↦ none | some r ↦ some (stored_issuer r) ]
  ];
  host = if is_named e.host then e.host else none;
  auth_variable =
      if is_named e.host && not (is_built_in e.host) then or_else e.auth_variable "" else "";
  auth_header = if is_named e.host && not (is_built_in e.host) then e.auth_header else "";
  auth_prefix = if is_named e.host && not (is_built_in e.host) then e.auth_prefix else "";
  placeholder_fingerprint = none;
}
