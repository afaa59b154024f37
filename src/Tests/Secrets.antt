-- ===== src/Tests/Secrets.antt =====
-- The theorems about secrets and placeholders, at concrete inputs.
use drukbox.Base.{◌≡◌, refl, none, some, [], ◌∷◌, ◌++◌, arith}
use drukbox.Base.Op.{ok}
use drukbox.Base.Keeps.{Outcome}
use drukbox.Exchange.Secret.{Secret, Issuer, Answer, response, document, absent, fetch, codes}
use drukbox.Exchange.Secret.Usable.{IsUsable, Carries, fetch-IsUsable}
use drukbox.Exchange.Refreshable.{World, Cell, fresh, push}
use drukbox.Exchange.Refreshable.Backoff.{IsPaced, push-IsPaced}
use drukbox.Exchange.Refreshable.Delivery.{AfterPush, Unpushed, push-Delivers}
use drukbox.HostSecrets.Catalog.{Entry}
use drukbox.Exchange.Table.{Table, current}
use drukbox.Exchange.Table.Served.{IsEntryServed, current-IsEntryServed}
use drukbox.Exchange.Authorize.{Site, authorize}
use drukbox.Exchange.Authorize.Grant.{IsJustified, authorize-IsJustified}
use drukbox.Tests.Samples.{docker, warm_host}
use drukbox.HostSecrets.Placeholder.{Placeholder, read, print}
use drukbox.HostSecrets.Placeholder.RoundTrip.{read-print}

abbrev issuer : Issuer
issuer = record { url = "https://issuer.example/token"; headers = []; refresh = "1h" }

abbrev granted : Answer
granted = response 200 (document none (some "token") absent)

abbrev token : Secret
token = record { value = "token"; expires_at = some 3601000 }

token_fetched : fetch issuer granted 1000 1010 ≡ ok token
unfolding fetch
token_fetched = refl

fetch-IsUsable_example : IsUsable token 1010 × Carries granted "token"
fetch-IsUsable_example = fetch-IsUsable issuer granted 1000 1010 token token_fetched

abbrev reachable : World
reachable = record { delay = λ n. 10; answer = λ n. granted; deliver = λ n value. none }

abbrev cell : Cell
cell = record { held = fresh 1000; clock = 1000; turn = 0; delivered = [] }

push-Delivers_example :
    Outcome (AfterPush cell 1010) (λ e. Unpushed cell) (push reachable issuer cell)
push-Delivers_example = push-Delivers reachable issuer cell

push-IsPaced_example : IsPaced (push reachable issuer cell).1
push-IsPaced_example =
    push-IsPaced reachable issuer cell (record { above = omega arith; below = omega arith })

abbrev pub placeholder : Placeholder
placeholder = record { host_id = 7; service = b'g' ∷ b'h' ∷ []; secret = b's' ∷ [] }

read-print_example :
    (read (print placeholder) ≡ some placeholder)
    × (read (codes "Bearer " ++ print placeholder) ≡ some placeholder)
read-print_example = read-print placeholder (omega arith) (refl, (refl, tt)) (refl, tt)

abbrev registered : Entry
registered = record {
  value = none;
  issuer = some issuer;
  host = some "api.example";
  auth_variable = "TOKEN";
  auth_header = "Authorization";
  auth_prefix = "Bearer ";
  placeholder_fingerprint = some "digest";
}

abbrev pub table : Table
table = record { slots = []; tasks = []; next_object = 0; clock = 1000; turn = 0; delivered = [] }

current-IsEntryServed_example :
    Outcome
      (IsEntryServed registered 1000)
      (λ e t'. Unit {0})
      (current reachable warm_host "gh" registered table)
current-IsEntryServed_example = current-IsEntryServed reachable warm_host "gh" registered table

abbrev pub site : Site
site = record {
  world = reachable;
  hosts = record warm_host { secrets = ("gh", registered) ∷ [] } ∷ [];
  registry = record { factories = ("docker", docker) ∷ []; default_host_provider = "docker" };
  sha256 = λ secret. "digest";
  base64 = λ text. text;
}

authorize-IsJustified_example :
    Outcome
      (IsJustified site (print placeholder) "api.example" table)
      (λ e t'. ⊥)
      (authorize site (print placeholder) "api.example" table)
authorize-IsJustified_example = authorize-IsJustified site (print placeholder) "api.example" table
