-- ===== src/Hosts/Claim/Race.antt =====
-- Two claims of one warm host (`_try_claim_pool_host` of src/hosts/service.py).
use drukbox.Base.{
  ℕ, true, false, ◌≡◌, refl, none, some, List, [], ◌∷◌, ◌==◌, is_some, arith, Bool-cases, inl, inr,
}
use drukbox.Hosts.Model.{Host}
use drukbox.Hosts.World.{has_host, find_host}
use drukbox.Hosts.Claim.{claimed}
use drukbox.Hosts.Invariant.Defs.{DistinctIds}

-- What a claim writes: the row keeps its id and gets a time of claim.
abbrev pub IsClaim : (Host → Host) → Type 0
IsClaim f = (h : Host) → ((f h).id ≡ h.id) × (is_some (f h).claimed_at ≡ true)

claimed-absent :
    (i : ℕ) (f : Host → Host) (hs : List Host) → has_host i hs ≡ false → (claimed i f hs).1 ≡ none
unfolding claimed
claimed-absent i f [] h = refl
claimed-absent i f (x ∷ hs) h = ground (arith, claimed-absent i f hs)

-- Once a claim has got a row, no other claim gets it, whatever it writes: of the claims of one row,
-- one wins. The row that the winner gets was unclaimed, has the id, and is the row that the table
-- then has.
pub claimed-once :
    (i : ℕ) (f g : Host → Host) (hs : List Host) (h : Host)
    → IsClaim f
    → DistinctIds hs
    → (claimed i f hs).1 ≡ some h
    → ((claimed i g (claimed i f hs).0).1 ≡ none)
      × (find_host i (claimed i f hs).0 ≡ some h)
      × ((old : Host) × (find_host i hs ≡ some old) × (old.claimed_at ≡ none) × (h ≡ f old))
unfolding claimed
claimed-once i f g [] h c d won = absurd (ground arith)
claimed-once i f g (x ∷ hs) h c d won = elim (Bool-cases (x.id == i)) [
  | inr other ↦
      let (lost, there, (old, was, open_row, same_row)) =
        claimed-once i f g hs h c d.1 (ground (arith, other)) in
      (
        ground (arith, other, lost),
        ground (arith, other, there),
        (old, ground (arith, other, was), open_row, same_row),
      )
  | inl same ↦ elim (Bool-cases (is_some x.claimed_at)) [
    | inl taken ↦ absurd (ground (arith, same, taken, d.0, claimed-absent i f hs))
    | inr free ↦ (
      ground (arith, same, free, c x, d.0, claimed-absent i g hs),
      ground (arith, same, free, c x),
      (x, ground (arith, same), ground (arith, free), ground (arith, same, free)),
    )
  ]
]
