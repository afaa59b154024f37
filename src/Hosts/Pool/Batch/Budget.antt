-- ===== src/Hosts/Pool/Batch/Budget.antt =====
-- How many hosts a tick asks for.
use drukbox.Base.{
  ℕ, zero, suc, ◌+◌, ◌≤◌, ◌<◌, min, ◌≡◌, ◌∙◌, String, List, [], ◌∷◌, length, length-append, arith,
  All,
}
use drukbox.Hosts.Pool.Batch.{Deficits, one_round, rounds, batch}

abbrev pub total : Deficits → ℕ
total [] = 0
total ((p, lacking) ∷ ds) = lacking + total ds

abbrev pub IsLacking : Deficits → Type 0
IsLacking = All (λ d. 0 < d.1)

-- What one round does to the sums.
record Accounts (budget : ℕ) (ds : Deficits) (r : List String × Deficits × ℕ) : Type 0 where
  lacking : IsLacking r.1
  spent : length r.0 + r.2 ≡ budget
  owed : length r.0 + total r.1 ≡ total ds

one_round-Accounts :
    (budget : ℕ) (ds : Deficits) → IsLacking ds → Accounts budget ds (one_round budget ds)
unfolding one_round
one_round-Accounts zero ds h = record { lacking = h; spent = omega arith; owed = omega arith }
one_round-Accounts (suc budget) [] h = record {
  lacking = tt;
  spent = omega arith;
  owed = omega arith;
}
one_round-Accounts (suc budget) ((p, lacking) ∷ ds) h =
    ground (arith, one_round-Accounts budget ds h.1)

one_round-takes :
    (budget : ℕ) (d : String × ℕ) (ds : Deficits) → 0 < length (one_round (suc budget) (d ∷ ds)).0
unfolding one_round
one_round-takes budget d ds = omega arith

-- The sums of a round and of the rounds after it.
join_rounds :
    (a left b budget owed rest : ℕ)
    → a + left ≡ budget
    → a + rest ≡ owed
    → b ≡ min left rest
    → a + b ≡ min budget owed
join_rounds a left b budget owed rest p q r = omega arith

rounds-length :
    (fuel budget : ℕ) (ds : Deficits)
    → budget ≤ fuel
    → IsLacking ds
    → length (rounds fuel budget ds) ≡ min budget (total ds)
unfolding rounds
rounds-length zero budget ds f h = omega arith
rounds-length (suc fuel) zero ds f h = omega arith
rounds-length (suc fuel) (suc budget) [] f h = omega arith
rounds-length (suc fuel) (suc budget) (d ∷ ds) f h =
    let r = one_round (suc budget) (d ∷ ds) in
    let acc = one_round-Accounts (suc budget) (d ∷ ds) h in
    let some_taken = one_round-takes budget d ds in
    let later = rounds-length fuel r.2 r.1 (omega (arith, acc.spent, some_taken)) acc.lacking in
    length-append r.0 (rounds fuel r.2 r.1)
    ∙ join_rounds (length r.0) r.2 _ _ _ (total r.1) acc.spent acc.owed later

-- A tick asks for as many hosts as the providers lack, up to its budget: the budget is fuel enough,
-- and the batch neither stops early nor passes it.
pub length-batch :
    (budget : ℕ) (ds : Deficits) → IsLacking ds → length (batch budget ds) ≡ min budget (total ds)
unfolding batch
length-batch budget ds h = rounds-length budget budget ds (omega arith) h
