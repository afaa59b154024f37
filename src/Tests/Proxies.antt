-- ===== src/Tests/Proxies.antt =====
-- The theorems about the secrets proxy, at concrete inputs.
use drukbox.Base.{◌≡◌, refl, ◌⊎◌, ℕ, none, some, List, [], ◌∷◌, ◌++◌, true, false}
use drukbox.Base.Keeps.{Outcome}
use drukbox.Exchange.Secret.{codes}
use drukbox.HostSecrets.Placeholder.{print}
use drukbox.Exchange.Table.{Table}
use drukbox.Proxy.Client.{answered, listed}
use drukbox.Proxy.Header.{placeholder_in}
use drukbox.Proxy.Addon.{Address, Net, State, Flow, server_connect}
use drukbox.Proxy.Addon.Pinned.{IsFailed, IsPinned, server_connect-IsPinned}
use drukbox.Proxy.Swap.{swap}
use drukbox.Proxy.Swap.Swapped.{IsAnswered, swap-IsAnswered}
use drukbox.Proxy.Swap.Backed.{through, IsAnsweredByExchange, swap-IsBacked}
use drukbox.Tests.Headers.{fields, fields-laws}
use drukbox.Tests.Secrets.{site, table, placeholder}

abbrev public : Address
public = record {
  version = 4;
  packed = 9;
  text = "0.0.0.9";
  is_global = true;
  is_multicast = false;
}

abbrev net : Net Table
net = record {
  authorize =
      λ p host t. (answered 200 (some (codes "Authorization")) (some (codes "Bearer secret")), t);
  upstreams = λ t. (listed 200 (some ("api.example" ∷ [])), t);
  addresses = λ turn host. public ∷ [];
  delay = λ turn. 10;
  is_address = λ host. false;
  decode = λ text. none;
}

abbrev Fields : Type 0
Fields = List (List ℕ × List ℕ)

abbrev flow : Flow Fields
flow = record {
  scheme = "https";
  host = "api.example";
  host_header = some "api.example:443";
  headers = (codes "Authorization", codes "Bearer " ++ print placeholder) ∷ [];
  stream = false;
  response = none;
}

abbrev addon : State Table Fields
addon = record {
  upstreams = [];
  upstreams_at = none;
  upstreams_known = false;
  flow = flow;
  server = record { address = "api.example"; port = 443; sni = none; error = none };
  ignored = false;
  exchange = table;
  clock = 0;
  turn = 0;
}

abbrev found : List (List ℕ × List ℕ)
found = (codes "Authorization", print placeholder) ∷ []

-- The placeholder of a bearer is found, in a longer text it is not.
found_bearer : placeholder_in (λ text. none) (codes "Bearer drk.a.b.c") ≡ some (codes "drk.a.b.c")
unfolding placeholder_in
found_bearer = refl

missed_text : placeholder_in (λ text. none) (codes "key drk.a.b.c") ≡ none
unfolding placeholder_in
missed_text = refl

server_connect-IsPinned_example :
    Outcome
      (λ u s'. IsFailed addon.server s'.server ⊎ IsPinned net addon.server s'.server)
      (λ e s'. s'.server ≡ addon.server)
      (server_connect net addon)
server_connect-IsPinned_example = server_connect-IsPinned net addon

swap-IsAnswered_example :
    Outcome
      (λ u. IsAnswered net fields fields-laws (codes "authorization") "api.example" found flow)
      (λ e s'. s'.flow ≡ flow)
      (swap net fields found addon)
swap-IsAnswered_example = swap-IsAnswered net fields fields-laws (codes "authorization") found addon

swap-IsBacked_example :
    Outcome
      (λ u s'.
        IsAnsweredByExchange site net fields "api.example" found
          (codes "authorization")
          flow
          s'.flow)
      (λ e s'. s'.flow ≡ flow)
      (swap (through site net) fields found addon)
swap-IsBacked_example =
    swap-IsBacked site net fields fields-laws (codes "authorization") found addon
