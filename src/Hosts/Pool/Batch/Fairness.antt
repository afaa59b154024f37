-- ===== src/Hosts/Pool/Batch/Fairness.antt =====
-- Whom a tick serves first.
use drukbox.Base.{
  ℕ, zero, suc, ◌-◌, ◌≡◌, refl, ap, ◌∙◌, String, List, [], ◌∷◌, ◌++◌, length, take, map, arith,
}
use drukbox.Hosts.Pool.Batch.{Deficits, one_round, rounds, batch}

abbrev pub names : Deficits → List String
names = map (λ d. d.0)

one_round-taken : (budget : ℕ) (ds : Deficits) → (one_round budget ds).0 ≡ take budget (names ds)
unfolding one_round
one_round-taken zero ds = refl
one_round-taken (suc budget) [] = refl
one_round-taken (suc budget) ((p, n) ∷ ds) = ap (λ l. p ∷ l) (one_round-taken budget ds)

one_round-left : (budget : ℕ) (ds : Deficits) → (one_round budget ds).2 ≡ budget - length ds
unfolding one_round
one_round-left zero ds = omega arith
one_round-left (suc budget) [] = omega arith
one_round-left (suc budget) ((p, n) ∷ ds) = omega (arith, one_round-left budget ds)

take-append :
    (budget : ℕ) (ds : Deficits) (more : List String)
    → (budget - length ds ≡ 0 → more ≡ [])
    → take (length ds) (take budget (names ds) ++ more) ≡ take budget (names ds)
take-append zero [] more h = refl
take-append (suc budget) [] more h = refl
take-append zero (d ∷ ds) more h = rw (h (omega arith)) refl
take-append (suc budget) (d ∷ ds) more h =
    ap (λ l. d.0 ∷ l) (take-append budget ds more (λ spent. h (omega (arith, spent))))

rounds-spent : (fuel : ℕ) (ds : Deficits) (left : ℕ) → left ≡ 0 → rounds fuel left ds ≡ []
unfolding rounds
rounds-spent zero ds left h = refl
rounds-spent (suc fuel) ds zero h = refl
rounds-spent (suc fuel) ds (suc left) h = absurd (omega arith)

-- The batch of a tick starts with one host for each provider that lacks some, in the order of the
-- tick, as far as the budget goes: no provider gets a second host before every other got one.
pub take-batch :
    (budget : ℕ) (ds : Deficits) → take (length ds) (batch budget ds) ≡ take budget (names ds)
unfolding batch rounds
take-batch zero [] = refl
take-batch zero (d ∷ ds) = refl
take-batch (suc budget) [] = refl
take-batch (suc budget) (d ∷ ds) =
    let r = one_round (suc budget) (d ∷ ds) in
    let more = rounds budget r.2 r.1 in
    ap (λ l. take (length (d ∷ ds)) (l ++ more)) (one_round-taken (suc budget) (d ∷ ds))
    ∙ take-append (suc budget) (d ∷ ds) more
        (λ spent. rounds-spent budget r.1 r.2 (one_round-left (suc budget) (d ∷ ds) ∙ spent))
