-- ===== src/HostSecrets/Catalog.antt =====
-- src/host_secrets/catalog.py
use Prim.Native.String as Text
use drukbox.Base.{String, Option, none, some, List, [], ◌∷◌, is_text, if◌then◌else◌, lookup}
use drukbox.Exchange.Secret.{Issuer}

-- One registered secret as it is stored: a static value or an issuer, the members of a custom
-- service (they stand beside a host), and the fingerprint of its placeholder.
pub record Entry : Type 0 where
  pub value : Option String
  pub issuer : Option Issuer
  pub host : Option String
  pub auth_variable : String
  pub auth_header : String
  pub auth_prefix : String
  pub placeholder_fingerprint : Option String

pub record Upstream : Type 0 where
  pub host : String
  pub auth_header : String
  pub auth_prefix : String
  pub basic_user : String

pub record Service : Type 0 where
  pub auth_variable : String
  pub upstreams : List Upstream

abbrev pub bearer : String → Upstream
bearer host = record {
  host = host;
  auth_header = "Authorization";
  auth_prefix = "Bearer ";
  basic_user = "";
}

abbrev pub github : Service
github = record {
  auth_variable = "GH_TOKEN";
  upstreams =
      bearer "api.github.com"
      ∷ bearer "uploads.github.com"
      ∷ record {
        host = "github.com";
        auth_header = "Authorization";
        auth_prefix = "Bearer ";
        basic_user = "x-access-token";
      }
      ∷ [];
}

-- `CATALOG`
abbrev pub catalog : List (String × Service)
catalog =
    (
      "anthropic",
      record {
        auth_variable = "ANTHROPIC_AUTH_TOKEN";
        upstreams = bearer "api.anthropic.com" ∷ bearer "mcp-proxy.anthropic.com" ∷ [];
      },
    )
    ∷ ("github", github)
    ∷ (
      "openai",
      record { auth_variable = "OPENAI_API_KEY"; upstreams = bearer "api.openai.com" ∷ [] },
    )
    ∷ []

-- `BUILT_IN_HOSTS`
abbrev pub built_in_hosts : List (String × Service)
built_in_hosts = ("github.com", github) ∷ []

-- `service`; none stands for the `KeyError` of a name that the catalog lacks.
unfoldable pub service : String → Entry → Option Service
service name entry = elim entry.host [
  | none ↦ lookup name catalog
  | some host ↦ elim (lookup host built_in_hosts) [
    | some built_in ↦ some built_in
    | none ↦ some (record {
      auth_variable = entry.auth_variable;
      upstreams =
          record {
            host = host;
            auth_header = entry.auth_header;
            auth_prefix = entry.auth_prefix;
            basic_user = "";
          }
          ∷ [];
    })
  ]
]

-- `Upstream.credential`, over the base64 of the standard library.
unfoldable pub credential : (String → String) → Upstream → String → String
credential base64 upstream value =
    if is_text upstream.basic_user
    then Text.◌++◌ "Basic " (base64 (Text.◌++◌ upstream.basic_user (Text.◌++◌ ":" value)))
    else Text.◌++◌ upstream.auth_prefix value
