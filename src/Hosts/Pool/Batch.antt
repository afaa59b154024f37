-- ===== src/Hosts/Pool/Batch.antt =====
-- src/hosts/pool.py: the providers that one tick creates hosts for, round-robin over what each
-- lacks, up to the budget of the tick.
pub mod Budget
pub mod Fairness
use drukbox.Base.{
  ℕ, zero, suc, ◌+◌, ◌-◌, String, Bool, List, [], ◌∷◌, ◌++◌, ◌==◌, if◌then◌else◌, is_empty,
}

abbrev pub Deficits : Type 0
Deficits = List (String × ℕ)

-- One `for` over the deficits: the providers taken, what is lacking then, the budget left.
unfoldable pub one_round : ℕ → Deficits → List String × Deficits × ℕ
one_round zero ds = ([], ds, 0)
one_round (suc budget) [] = ([], [], suc budget)
one_round (suc budget) ((p, lacking) ∷ ds) =
    let (taken, rest, left) = one_round budget ds in
    (p ∷ taken, (if lacking - 1 == 0 then rest else (p, lacking - 1) ∷ rest), left)

-- The `while`, on fuel.
unfoldable pub rounds : ℕ → ℕ → Deficits → List String
rounds zero budget ds = []
rounds (suc fuel) zero ds = []
rounds (suc fuel) (suc budget) [] = []
rounds (suc fuel) (suc budget) (d ∷ ds) =
    let r = one_round (suc budget) (d ∷ ds) in r.0 ++ rounds fuel r.2 r.1

-- Every round takes a provider, so the budget is fuel enough.
unfoldable pub batch : ℕ → Deficits → List String
unfolding rounds one_round
batch budget ds = rounds budget budget ds
