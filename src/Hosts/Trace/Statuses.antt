-- ===== src/Hosts/Trace/Statuses.antt =====
-- The statuses that `provision` of src/hosts/service.py commits to a host's row, in order.
use drukbox.Base.{
  ℕ, String, Bool, true, false, ◌≡◌, Option, none, some, List, [], ◌∷◌, ◌++◌, ◌==◌, if◌then◌else◌,
  arith,
}
use drukbox.Hosts.Model.{HostStatus}
use drukbox.Hosts.World.{
  Event, status_committed, vm_created, vm_delete_called, secrets_delete_called,
  device_release_called, row_deleted,
}

-- The order of the statuses, in which every status after PROVISIONING may fail.
abbrev pub is_next : HostStatus → HostStatus → Bool
is_next HostStatus.provisioning HostStatus.creating_network = true
is_next HostStatus.creating_network HostStatus.creating_vm = true
is_next HostStatus.creating_vm HostStatus.bootstrapping = true
is_next HostStatus.bootstrapping HostStatus.active = true
is_next HostStatus.creating_network HostStatus.error = true
is_next HostStatus.creating_vm HostStatus.error = true
is_next HostStatus.bootstrapping HostStatus.error = true
is_next _ _ = false

abbrev pub is_final : HostStatus → Bool
is_final HostStatus.active = true
is_final HostStatus.error = true
is_final _ = false

-- The status that one host's commits lead to, or none when one is out of order.
unfoldable pub follow : ℕ → HostStatus → List Event → Option HostStatus
follow i s [] = some s
follow i s (status_committed j t ∷ es) =
    let rest = follow i t es in
    let others = follow i s es in if j == i then (if is_next s t then rest else none) else others
follow i s (_ ∷ es) = follow i s es

-- The commits of a new row lead to a status, and to a last one.
abbrev pub Reaches : ℕ → HostStatus → List Event → Type 0
Reaches i s es = follow i HostStatus.provisioning es ≡ some s

abbrev pub IsOrdered : ℕ → List Event → Type 0
IsOrdered i es = (s : HostStatus) × Reaches i s es

abbrev pub IsFinished : ℕ → List Event → Type 0
IsFinished i es = (s : HostStatus) × (is_final s ≡ true) × Reaches i s es

pub follow-append :
    (i : ℕ) (a b c : HostStatus) (es : List Event)
    → follow i a es ≡ some b
    → is_next b c ≡ true
    → follow i a (es ++ status_committed i c ∷ []) ≡ some c
unfolding follow
follow-append i a b c [] h n = ground arith
follow-append i a b c (status_committed j t ∷ es) h n =
    ground (arith, follow-append i t b c es, follow-append i a b c es)
follow-append i a b c (vm_created name ∷ es) h n = follow-append i a b c es h n
follow-append i a b c (vm_delete_called name r ∷ es) h n = follow-append i a b c es h n
follow-append i a b c (secrets_delete_called name r ∷ es) h n = follow-append i a b c es h n
follow-append i a b c (device_release_called name r ∷ es) h n = follow-append i a b c es h n
follow-append i a b c (row_deleted j ∷ es) h n = follow-append i a b c es h n

pub follow-append_vm_created :
    (i : ℕ) (a b : HostStatus) (name : String) (es : List Event)
    → follow i a es ≡ some b
    → follow i a (es ++ vm_created name ∷ []) ≡ some b
unfolding follow
follow-append_vm_created i a b name [] h = h
follow-append_vm_created i a b name (status_committed j t ∷ es) h =
    ground (arith, follow-append_vm_created i t b name es, follow-append_vm_created i a b name es)
follow-append_vm_created i a b name (vm_created m ∷ es) h = follow-append_vm_created i a b name es h
follow-append_vm_created i a b name (vm_delete_called m r ∷ es) h =
    follow-append_vm_created i a b name es h
follow-append_vm_created i a b name (secrets_delete_called m r ∷ es) h =
    follow-append_vm_created i a b name es h
follow-append_vm_created i a b name (device_release_called m r ∷ es) h =
    follow-append_vm_created i a b name es h
follow-append_vm_created i a b name (row_deleted j ∷ es) h =
    follow-append_vm_created i a b name es h
