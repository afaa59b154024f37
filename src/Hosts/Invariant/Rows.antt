-- ===== src/Hosts/Invariant/Rows.antt =====
-- Soundness under the changes of one row, of the keys, and under an INSERT and a DELETE.

use drukbox.Base.{
  ℕ, String, true, false, not, ◌&&◌, ◌≡◌, refl, List, [], ◌∷◌, is_some, All, arith, ◌==◌, str_eq,
  if◌then◌else◌, any, eq_iff, Bool-cases, inl, inr, ◌∙◌,
}
use drukbox.Hosts.Model.{Host, IdempotencyKey}
use drukbox.Hosts.World.{has_host, has_name, update_row}
use drukbox.Hosts.Claim.{claimed}
use drukbox.Hosts.Invariant.Defs.{row_ok, DistinctIds, DistinctNames, HaveHosts}

-- A change of a row that keeps its id and what holds of rows.
abbrev pub Respects : (Host → Host) → Type 0
Respects f = (h : Host) → ((f h).id ≡ h.id) × (row_ok h ≡ true → row_ok (f h) ≡ true)

-- Such a change that keeps the name too.
abbrev pub Named : (Host → Host) → Type 0
Named f = (h : Host) → (f h).name ≡ h.name

module _ (i : ℕ) (f : Host → Host) (r : Respects f) where
  has_host-update : (j : ℕ) (hs : List Host) → has_host j (update_row i f hs) ≡ has_host j hs
  has_host-update j [] = refl
  has_host-update j (h ∷ hs) = ground (arith, has_host-update j hs, (r h).0)

  pub DistinctIds-update : (hs : List Host) → DistinctIds hs → DistinctIds (update_row i f hs)
  DistinctIds-update [] d = tt
  DistinctIds-update (h ∷ hs) d = ground (
    arith,
    DistinctIds-update hs d.1,
    has_host-update h.id hs,
    has_host-update (f h).id hs,
    (r h).0,
  )

  pub rows-update :
      (hs : List Host)
      → All (λ h. row_ok h ≡ true) hs
      → All (λ h. row_ok h ≡ true) (update_row i f hs)
  rows-update [] a = tt
  rows-update (h ∷ hs) (a, as') = elim (Bool-cases (h.id == i)) [
    | inl hit ↦ rw hit ((r h).1 a, rows-update hs as')
    | inr miss ↦ rw miss (a, rows-update hs as')
  ]

  pub HaveHosts-update :
      (hs : List Host) (ks : List IdempotencyKey)
      → HaveHosts hs ks
      → HaveHosts (update_row i f hs) ks
  HaveHosts-update hs [] a = tt
  HaveHosts-update hs (k ∷ ks) (a, as') =
      (has_host-update k.host_id hs ∙ a, HaveHosts-update hs ks as')

  has_name-update :
      Named f → (n : String) (hs : List Host) → has_name n (update_row i f hs) ≡ has_name n hs
  has_name-update same n [] = refl
  has_name-update same n (h ∷ hs) = ground (arith, has_name-update same n hs, same h)

  pub DistinctNames-update :
      Named f → (hs : List Host) → DistinctNames hs → DistinctNames (update_row i f hs)
  DistinctNames-update same [] d = tt
  DistinctNames-update same (h ∷ hs) d = ground (
    arith,
    DistinctNames-update same hs d.1,
    has_name-update same h.name hs,
    has_name-update same (f h).name hs,
    same h,
  )

update_row-absent :
    (i : ℕ) (f : Host → Host) (hs : List Host) → has_host i hs ≡ false → update_row i f hs ≡ hs
update_row-absent i f [] h = refl
update_row-absent i f (x ∷ hs) h = ground (arith, update_row-absent i f hs)

-- No row but `i` has the name.
abbrev pub IsFree : ℕ → String → List Host → Type 0
IsFree i name hs = any (λ h. str_eq h.name name && not (h.id == i)) hs ≡ false

module _ (i : ℕ) (name : String) (f : Host → Host) (given : (h : Host) → (f h).name ≡ name) where
  has_name-free :
      (hs : List Host) → has_host i hs ≡ false → IsFree i name hs → has_name name hs ≡ false
  has_name-free [] a b = refl
  has_name-free (h ∷ hs) a b = ground (arith, has_name-free hs)

  has_name-rename :
      (n : String) (hs : List Host)
      → str_eq name n ≡ false
      → has_name n hs ≡ false
      → has_name n (update_row i f hs) ≡ false
  has_name-rename n [] a b = refl
  has_name-rename n (h ∷ hs) a b = ground (arith, has_name-rename n hs a, given h)

  pub DistinctNames-rename :
      (hs : List Host)
      → DistinctIds hs
      → DistinctNames hs
      → IsFree i name hs
      → DistinctNames (update_row i f hs)
  DistinctNames-rename [] d n free = tt
  DistinctNames-rename (h ∷ hs) d n free = elim (Bool-cases (h.id == i)) [
    | inl hit ↦
        let absent : has_host i hs ≡ false = ground (arith, d.0) in
        let others : IsFree i name hs = ground arith in
        rw (hit, update_row-absent i f hs absent, given h) (has_name-free hs absent others, n.1)
    | inr miss ↦
        let others : IsFree i name hs = ground arith in
        let apart : str_eq name h.name ≡ false =
          ground (arith, eq_iff name h.name, eq_iff h.name name) in
        rw miss (has_name-rename h.name hs apart n.0, DistinctNames-rename hs d.1 n.1 others)
  ]

pub claimed-update :
    (i : ℕ) (f : Host → Host) (hs : List Host)
    → DistinctIds hs
    → (claimed i f hs).0 ≡ update_row i (λ h. if is_some h.claimed_at then h else f h) hs
unfolding claimed
claimed-update i f [] d = refl
claimed-update i f (h ∷ hs) d = ground (
  arith,
  claimed-update i f hs d.1,
  update_row-absent i (λ (x : Host). if is_some x.claimed_at then x else f x) hs,
)
