-- ===== src/Hosts/Invariant/Tables.antt =====
-- Soundness under an INSERT, a DELETE, and the changes of the idempotency keys.
use drukbox.Base.{
  ℕ, String, true, false, ◌||◌, ◌≡◌, refl, List, [], ◌∷◌, ◌++◌, is_some, All, arith, ◌==◌, str_eq,
  eq_iff, Bool-cases, inl, inr,
}
use drukbox.Hosts.Model.{Host, IdempotencyKey}
use drukbox.Hosts.World.{has_host, has_name, remove_row, remove_keys}
use drukbox.Hosts.Request.{find_key, drop_key}
use drukbox.Hosts.Invariant.Defs.{row_ok, DistinctIds, DistinctNames, DistinctKeys, HaveHosts}

module _ (x : Host) where
  has_host-append :
      (j : ℕ) (hs : List Host) → has_host j (hs ++ x ∷ []) ≡ (has_host j hs || (x.id == j))
  has_host-append j [] = ground arith
  has_host-append j (h ∷ hs) = ground (arith, has_host-append j hs)

  has_name-append :
      (n : String) (hs : List Host) → has_name n (hs ++ x ∷ []) ≡ (has_name n hs || str_eq x.name n)
  has_name-append n [] = ground arith
  has_name-append n (h ∷ hs) = ground (arith, has_name-append n hs)

  pub DistinctIds-append :
      (hs : List Host) → has_host x.id hs ≡ false → DistinctIds hs → DistinctIds (hs ++ x ∷ [])
  DistinctIds-append [] a d = (refl, tt)
  DistinctIds-append (h ∷ hs) a d =
      ground (arith, DistinctIds-append hs, has_host-append h.id hs, d)

  pub DistinctNames-append :
      (hs : List Host)
      → has_name x.name hs ≡ false
      → DistinctNames hs
      → DistinctNames (hs ++ x ∷ [])
  DistinctNames-append [] a d = (refl, tt)
  DistinctNames-append (h ∷ hs) a d = ground (
    arith,
    DistinctNames-append hs,
    has_name-append h.name hs,
    d,
    eq_iff x.name h.name,
    eq_iff h.name x.name,
  )

  pub rows-append :
      (hs : List Host)
      → row_ok x ≡ true
      → All (λ h. row_ok h ≡ true) hs
      → All (λ h. row_ok h ≡ true) (hs ++ x ∷ [])
  rows-append [] a as' = (a, tt)
  rows-append (h ∷ hs) a as' = (as'.0, rows-append hs a as'.1)

  pub HaveHosts-append :
      (hs : List Host) (ks : List IdempotencyKey) → HaveHosts hs ks → HaveHosts (hs ++ x ∷ []) ks
  HaveHosts-append hs [] a = tt
  HaveHosts-append hs (k ∷ ks) a =
      (ground (arith, has_host-append k.host_id hs, a.0), HaveHosts-append hs ks a.1)

module _ (i : ℕ) where
  has_host-remove :
      (j : ℕ) (hs : List Host) → has_host j hs ≡ false → has_host j (remove_row i hs) ≡ false
  has_host-remove j [] a = refl
  has_host-remove j (h ∷ hs) a = ground (arith, has_host-remove j hs)

  has_name-remove :
      (n : String) (hs : List Host) → has_name n hs ≡ false → has_name n (remove_row i hs) ≡ false
  has_name-remove n [] a = refl
  has_name-remove n (h ∷ hs) a = ground (arith, has_name-remove n hs)

  pub DistinctIds-remove : (hs : List Host) → DistinctIds hs → DistinctIds (remove_row i hs)
  DistinctIds-remove [] d = tt
  DistinctIds-remove (h ∷ hs) d =
      ground (arith, DistinctIds-remove hs d.1, has_host-remove h.id hs d.0)

  pub DistinctNames-remove : (hs : List Host) → DistinctNames hs → DistinctNames (remove_row i hs)
  DistinctNames-remove [] d = tt
  DistinctNames-remove (h ∷ hs) d =
      ground (arith, DistinctNames-remove hs d.1, has_name-remove h.name hs d.0)

  pub rows-remove :
      (hs : List Host)
      → All (λ h. row_ok h ≡ true) hs
      → All (λ h. row_ok h ≡ true) (remove_row i hs)
  rows-remove [] a = tt
  rows-remove (h ∷ hs) (a, as') = elim (Bool-cases (h.id == i)) [
    | inl hit ↦ rw hit (rows-remove hs as')
    | inr miss ↦ rw miss (a, rows-remove hs as')
  ]

  has_host-kept :
      (j : ℕ) (hs : List Host)
      → (j == i) ≡ false
      → has_host j hs ≡ true
      → has_host j (remove_row i hs) ≡ true
  has_host-kept j [] n a = a
  has_host-kept j (h ∷ hs) n a = ground (arith, has_host-kept j hs n)

  pub HaveHosts-remove :
      (hs : List Host) (ks : List IdempotencyKey)
      → HaveHosts hs ks
      → HaveHosts (remove_row i hs) (remove_keys i ks)
  HaveHosts-remove hs [] a = tt
  HaveHosts-remove hs (k ∷ ks) a = elim (Bool-cases (k.host_id == i)) [
    | inl hit ↦ rw hit (HaveHosts-remove hs ks a.1)
    | inr miss ↦ rw miss (has_host-kept k.host_id hs miss a.0, HaveHosts-remove hs ks a.1)
  ]

  find_key-remove :
      (key : String) (ks : List IdempotencyKey)
      → is_some (find_key key ks) ≡ false
      → is_some (find_key key (remove_keys i ks)) ≡ false
  find_key-remove key [] a = refl
  find_key-remove key (k ∷ ks) a = ground (arith, find_key-remove key ks)

  pub DistinctKeys-remove :
      (ks : List IdempotencyKey) → DistinctKeys ks → DistinctKeys (remove_keys i ks)
  DistinctKeys-remove [] d = tt
  DistinctKeys-remove (k ∷ ks) d =
      ground (arith, DistinctKeys-remove ks d.1, find_key-remove k.key ks d.0)

module _ (key : String) where
  find_key-drop :
      (j : String) (ks : List IdempotencyKey)
      → is_some (find_key j ks) ≡ false
      → is_some (find_key j (drop_key key ks)) ≡ false
  find_key-drop j [] a = refl
  find_key-drop j (k ∷ ks) a = ground (arith, find_key-drop j ks)

  pub DistinctKeys-drop :
      (ks : List IdempotencyKey) → DistinctKeys ks → DistinctKeys (drop_key key ks)
  DistinctKeys-drop [] d = tt
  DistinctKeys-drop (k ∷ ks) d =
      ground (arith, DistinctKeys-drop ks d.1, find_key-drop k.key ks d.0)

  pub HaveHosts-drop :
      (hs : List Host) (ks : List IdempotencyKey) → HaveHosts hs ks → HaveHosts hs (drop_key key ks)
  HaveHosts-drop hs [] a = tt
  HaveHosts-drop hs (k ∷ ks) a = elim (Bool-cases (str_eq k.key key)) [
    | inl hit ↦ rw hit (HaveHosts-drop hs ks a.1)
    | inr miss ↦ rw miss (a.0, HaveHosts-drop hs ks a.1)
  ]

module _ (x : IdempotencyKey) where
  find_key-append :
      (j : String) (ks : List IdempotencyKey)
      → is_some (find_key j (ks ++ x ∷ [])) ≡ (is_some (find_key j ks) || str_eq x.key j)
  find_key-append j [] = ground arith
  find_key-append j (k ∷ ks) = ground (arith, find_key-append j ks)

  pub DistinctKeys-append :
      (ks : List IdempotencyKey)
      → is_some (find_key x.key ks) ≡ false
      → DistinctKeys ks
      → DistinctKeys (ks ++ x ∷ [])
  DistinctKeys-append [] a d = (refl, tt)
  DistinctKeys-append (k ∷ ks) a d = ground (
    arith,
    DistinctKeys-append ks,
    find_key-append k.key ks,
    d,
    eq_iff x.key k.key,
    eq_iff k.key x.key,
  )

  pub HaveHosts-append_key :
      (hs : List Host) (ks : List IdempotencyKey)
      → has_host x.host_id hs ≡ true
      → HaveHosts hs ks
      → HaveHosts hs (ks ++ x ∷ [])
  HaveHosts-append_key hs [] a as' = (a, tt)
  HaveHosts-append_key hs (k ∷ ks) a as' = (as'.0, HaveHosts-append_key hs ks a as'.1)
