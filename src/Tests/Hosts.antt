-- ===== src/Tests/Hosts.antt =====
-- Runs of the hosts' operations, and the theorems about them at concrete inputs.
use drukbox.Base.{none, some, List, [], ◌∷◌}
use drukbox.Hosts.Service.{Call, post, renew, maintain, reap, serve_all}
use drukbox.Hosts.Service.Sound.{serve_all-Sound}
use drukbox.Hosts.Invariant.Defs.{Sound}
use drukbox.Tests.Samples.{quiet, start, plain_request}

abbrev calls : List Call
calls = maintain (λ ds. ds) ∷ post plain_request (some "k") ∷ renew 1 none ∷ reap ∷ []

start-Sound : Sound start
start-Sound = record { ids = tt; names = tt; rows = tt; keys = tt; held = tt }

serve_all-Sound_example : Sound (serve_all quiet calls start)
serve_all-Sound_example = serve_all-Sound quiet (λ n db s. s) calls start start-Sound
