-- ===== src/Tests/Parts.antt =====
-- The theorems about the parts under the hosts, at concrete inputs.
use drukbox.Base.{ℕ, ◌≡◌, refl, some, List, [], ◌∷◌, map, min, length, ◌↔◌, arith}
use drukbox.Base.Op.{ok}
use drukbox.Providers.Lease.{NotAfter, machine_end, lease_end_greatest}
use drukbox.Providers.{lease_end}
use drukbox.Providers.Environment.{Variables, get_persist, persist_line}
use drukbox.Providers.Environment.Accepted.{IsKept, get_persist-IsKept}
use drukbox.Hosts.Pool.Batch.{Deficits, batch}
use drukbox.Hosts.Pool.Batch.Budget.{total, length-batch}
use drukbox.Hosts.Pool.Batch.Fairness.{names, take-batch}
use drukbox.Base.{take}
use drukbox.Tests.Samples.{docker}
use drukbox.Base.{All}

lease_end_greatest_example :
    NotAfter (some 500000) (lease_end docker 1000 (some 2000000))
    ↔ (NotAfter (some 500000) (some 2000000) × NotAfter (some 500000) (machine_end docker 1000))
lease_end_greatest_example = lease_end_greatest docker 1000 (some 2000000) (some 500000)

abbrev variables : Variables
variables = ("PATH", "/usr/bin") ∷ ("GREETING", "hello world") ∷ []

abbrev variable_lines : List (List ℕ)
variable_lines = map (λ e. persist_line e.0 e.1) variables

variables_persist : get_persist variables ≡ ok variable_lines
unfolding get_persist
variables_persist = refl

get_persist-IsKept_example :
    (variable_lines ≡ map (λ e. persist_line e.0 e.1) variables) × All IsKept variables
get_persist-IsKept_example = get_persist-IsKept variables variable_lines variables_persist

abbrev lacking : Deficits
lacking = ("docker", 2) ∷ ("aws", 4) ∷ []

length-batch_example : length (batch 3 lacking) ≡ min 3 (total lacking)
length-batch_example = length-batch 3 lacking (omega arith, (omega arith, tt))

take-batch_example : take 2 (batch 3 lacking) ≡ take 3 (names lacking)
take-batch_example = take-batch 3 lacking
