-- ===== src/Vendors/Hetzner/Replies.antt =====
-- What the replies to src/providers/hetzner/api.py say.

use drukbox.Base.{
  ◌≡◌, refl, String, Bool, true, false, ◌&&◌, ◌||◌, Option, none, some, List, ltb, leb, ◌==◌, arith,
  inl, inr, Bool-cases,
}
use drukbox.Base.Op.{Result, ok, err, raise, pass}
use drukbox.Base.Keeps.{Outcome}
use drukbox.Vendors.Hetzner.Api.{
  HetznerFault, provider_not_found, Payload, Content, no_content, no_json, json, Reply, unreachable,
  replied, State, read_reply, read_content, needed, or_gone,
}

-- The reply to a DELETE says that there is nothing left to delete.
abbrev pub is_readable : Content → Bool
is_readable no_json = false
is_readable _ = true

abbrev pub is_gone : Reply → Bool
is_gone unreachable = false
is_gone (replied status content) = status == 404 || ltb status 400 && is_readable content

-- The ProviderNotFoundError of a machine that is not there.
abbrev pub is_missing : HetznerFault → Bool
is_missing provider_not_found = true
is_missing _ = false

abbrev pub IsPlain : {A : Type 0} → Result HetznerFault A → Type 0
IsPlain (ok a) = Unit
IsPlain (err e) = is_missing e ≡ false

content-IsPlain : (content : Content) → IsPlain (read_content content)
unfolding read_content
content-IsPlain no_content = tt
content-IsPlain no_json = refl
content-IsPlain (json payload) = tt

pub read_reply-IsPlain : (reply : Reply) → IsPlain (read_reply reply)
unfolding read_reply read_content
read_reply-IsPlain unreachable = refl
read_reply-IsPlain (replied status content) = elim (Bool-cases (status == 404)) [
  | inl missing ↦ rw missing refl
  | inr a ↦ elim (Bool-cases (leb 400 status)) [
    | inl refused ↦ rw a (rw refused refl)
    | inr b ↦ rw a (rw b (content-IsPlain content))
  ]
]

-- What a reply lists: the ids of the keys, of the servers.
abbrev pub keys_in : Result HetznerFault Payload → Result HetznerFault (List (Option String))
keys_in (err e) = err e
keys_in (ok payload) = needed payload.ssh_keys

abbrev pub servers_in : Result HetznerFault Payload → Result HetznerFault (List (Option String))
servers_in (err e) = err e
servers_in (ok payload) = needed payload.servers

needed-IsPlain : {A : Type 0} (o : Option A) → IsPlain (needed o)
unfolding needed
needed-IsPlain none = refl
needed-IsPlain (some a) = tt

pub keys_in-IsPlain : (r : Result HetznerFault Payload) → IsPlain r → IsPlain (keys_in r)
keys_in-IsPlain (err e) p = p
keys_in-IsPlain (ok payload) p = needed-IsPlain payload.ssh_keys

pub servers_in-IsPlain : (r : Result HetznerFault Payload) → IsPlain r → IsPlain (servers_in r)
servers_in-IsPlain (err e) p = p
servers_in-IsPlain (ok payload) p = needed-IsPlain payload.servers

readable-Outcome :
    (content : Content) (s : State) (P : State → Type 0)
    → (is_readable content ≡ true → P s)
    → Outcome (λ u. P) (λ e s'. is_missing e ≡ false) (or_gone (read_content content) s)
unfolding or_gone read_content pass raise
readable-Outcome no_content s P p = p refl
readable-Outcome no_json s P p = refl
readable-Outcome (json payload) s P p = p refl

pub or_gone-Outcome :
    (reply : Reply) (s : State) (P : State → Type 0)
    → (is_gone reply ≡ true → P s)
    → Outcome (λ u. P) (λ e s'. is_missing e ≡ false) (or_gone (read_reply reply) s)
unfolding or_gone read_reply read_content pass raise
or_gone-Outcome unreachable s P p = refl
or_gone-Outcome (replied status content) s P p = elim (Bool-cases (status == 404)) [
  | inl missing ↦ rw missing (p (ground (arith, missing)))
  | inr a ↦ elim (Bool-cases (leb 400 status)) [
    | inl refused ↦ rw a (rw refused refl)
    | inr b ↦ rw a (rw b (readable-Outcome content s P (λ h. p (ground (arith, b, h)))))
  ]
]
