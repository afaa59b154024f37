-- ===== src/Providers/Lease.antt =====
-- When a lease ends at a provider that stops every machine after a fixed life.
use drukbox.Base.{ℕ, ◌+◌, ◌≤◌, ◌↔◌, Option, none, some, arith}
use drukbox.Providers.{Provider, lease_end, lifetime}

-- The order of lease ends, in which a lease without end is the longest.
abbrev pub NotAfter : Option ℕ → Option ℕ → Type 0
NotAfter end none = Unit {0}
NotAfter none (some stop) = ⊥
NotAfter (some end) (some stop) = end ≤ stop

-- When the provider stops a machine by itself.
abbrev pub machine_end : Provider → ℕ → Option ℕ
machine_end vm created_at = elim (lifetime vm) [
  | none ↦ none
  | some seconds ↦ some (created_at + seconds)
]

-- The lease end is the greatest lower bound of the end that is asked for and of the machine's own
-- end: an end is not after it exactly when it is not after both.
pub lease_end_greatest :
    (vm : Provider) (created_at : ℕ) (asked end : Option ℕ)
    → NotAfter end (lease_end vm created_at asked)
      ↔ (NotAfter end asked × NotAfter end (machine_end vm created_at))
unfolding lease_end
lease_end_greatest vm created_at none none = ground arith
lease_end_greatest vm created_at none (some e) = ground arith
lease_end_greatest vm created_at (some a) none = ground arith
lease_end_greatest vm created_at (some a) (some e) = ground arith

NotAfter-refl : (end : Option ℕ) → NotAfter end end
NotAfter-refl none = tt
NotAfter-refl (some e) = omega arith

-- So no lease outlives its machine.
pub lease_end-NotAfter :
    (vm : Provider) (created_at : ℕ) (asked : Option ℕ)
    → NotAfter (lease_end vm created_at asked) (machine_end vm created_at)
lease_end-NotAfter vm created_at asked =
    ((lease_end_greatest vm created_at asked (lease_end vm created_at asked)).0 (NotAfter-refl _)).1
