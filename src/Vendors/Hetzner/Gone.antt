-- ===== src/Vendors/Hetzner/Gone.antt =====
-- `HetznerProvider.delete_vm` of src/providers/hetzner/provider.py.

use drukbox.Base.{
  suc, ◌≡◌, refl, String, true, false, Option, none, some, List, [], ◌∷◌, is_text, length, inl, inr,
  ◌⊎◌, Bool-cases,
}
use drukbox.Base.Op.{Result, ok, err, resume, caught, pure, raise, lift, pass, attempt, ◌>>=◌}
use drukbox.Base.Keeps.{Outcome}
use drukbox.Vendors.Hetzner.Api.{
  HetznerFault, vm_not_found, transport, provider_transport, provider_not_found, key_error,
  value_error, unfinished, Payload, Request, get_keys, delete_key, get_servers, delete_server_of,
  State, Hetzner, Act, read_reply, needed, note, request, or_gone, delete_first_key, delete_ssh_key,
  first_id, find_server_id_by_name, delete_server,
}
use drukbox.Vendors.Hetzner.Provider.{key_name, neutral, delete_found, delete_all, delete_vm}
use drukbox.Vendors.Hetzner.Replies.{
  is_gone, is_missing, IsPlain, read_reply-IsPlain, keys_in, servers_in, keys_in-IsPlain,
  servers_in-IsPlain, or_gone-Outcome,
}

module _ (hetzner : Hetzner) where
  -- The last reply to a request for the keys, or the servers, of a name.
  abbrev pub keys_of : String → List Request → Result HetznerFault (List (Option String))
  keys_of key before = keys_in (read_reply (hetzner.reply (length before) (get_keys key)))

  abbrev pub servers_of : String → List Request → Result HetznerFault (List (Option String))
  servers_of name before =
      servers_in (read_reply (hetzner.reply (length before) (get_servers name)))

  -- The last requests found no key of that name, or deleted the one they found.
  abbrev pub KeyGone : String → List Request → Type 0
  KeyGone key asked =
      (before : List Request) × (((asked ≡ get_keys key ∷ before) × (keys_of key before ≡ ok []))
        ⊎ ((id : String) × (more : List (Option String)) × (asked
              ≡ delete_key id ∷ get_keys key ∷ before)
            × (keys_of key before ≡ ok (some id ∷ more))
            × (is_gone (hetzner.reply (suc (length before)) (delete_key id)) ≡ true)))

  abbrev IsRaised : HetznerFault → State → Type 0
  IsRaised e s = is_missing e ≡ false

  delete_first_key-KeyGone :
      (key : String) (s : State) (keys : Result HetznerFault (List (Option String)))
      → keys_of key s.asked ≡ keys
      → IsPlain keys
      → Outcome
          (λ u s'. KeyGone key s'.asked)
          IsRaised
          ((lift keys >>= delete_first_key hetzner) (note hetzner (get_keys key) s))
  unfolding delete_first_key needed request ◌>>=◌ lift attempt pass note
  delete_first_key-KeyGone key s (err e) listed plain = plain
  delete_first_key-KeyGone key s (ok []) listed plain = (s.asked, inl (refl, listed))
  delete_first_key-KeyGone key s (ok (none ∷ more)) listed plain = refl
  delete_first_key-KeyGone key s (ok (some id ∷ more)) listed plain =
      or_gone-Outcome (hetzner.reply (suc (length s.asked)) (delete_key id)) _
        (λ s'. KeyGone key s'.asked) (λ gone. (s.asked, inr (id, more, refl, listed, gone)))

  keys_in-lift :
      (r : Result HetznerFault Payload) (s : State) (f : List (Option String) → Act (Unit {0}))
      → (lift r >>= λ existing. lift (needed existing.ssh_keys) >>= f) s
        ≡ (lift (keys_in r) >>= f) s
  unfolding ◌>>=◌ lift
  keys_in-lift (err e) s f = refl
  keys_in-lift (ok payload) s f = refl

  delete_ssh_key-KeyGone :
      (key : String) (s : State)
      → Outcome (λ u s'. KeyGone key s'.asked) IsRaised (delete_ssh_key hetzner key s)
  unfolding delete_ssh_key request ◌>>=◌
  delete_ssh_key-KeyGone key s =
      let reply = hetzner.reply (length s.asked) (get_keys key) in
      rw
        (keys_in-lift (read_reply reply) (note hetzner (get_keys key) s) (delete_first_key hetzner))
        (delete_first_key-KeyGone key s _ refl (keys_in-IsPlain _ (read_reply-IsPlain reply)))

  -- An operation with a weaker condition for its errors, alone, in front of another, and in the `try`
  -- of `delete_vm`.
  raised-Outcome :
      (Q Y : State → Type 0) (x : Result HetznerFault (Unit {0}) × State)
      → Outcome (λ u. Q) IsRaised x
      → Outcome (λ u. Q) (λ e s'. (is_missing e ≡ false) ⊎ Y s') x
  raised-Outcome Q Y (ok u, s) h = h
  raised-Outcome Q Y (err e, s) h = inl h

  resume-Outcome :
      (P Q Y : State → Type 0) (x : Result HetznerFault (Unit {0}) × State) (m : Act (Unit {0}))
      → Outcome (λ u. P) IsRaised x
      → ((s : State) → P s → Outcome (λ u. Q) (λ e s'. (is_missing e ≡ false) ⊎ Y s') (m s))
      → Outcome (λ u. Q) (λ e s'. (is_missing e ≡ false) ⊎ Y s') (resume x (λ u. m))
  resume-Outcome P Q Y (ok u, s) m h go = go s h
  resume-Outcome P Q Y (err e, s) m h go = inl h

  neutral-Outcome :
      (Q Y : State → Type 0) (x : Result HetznerFault (Unit {0}) × State)
      → Outcome (λ u. Q) (λ e s'. (is_missing e ≡ false) ⊎ Y s') x
      → Outcome (λ u. Q) (λ e s'. (is_missing e ≡ false) ⊎ Y s') (resume (caught x) neutral)
  unfolding neutral pure raise
  neutral-Outcome Q Y (ok u, s) h = h
  neutral-Outcome Q Y (err vm_not_found, s) h = inl refl
  neutral-Outcome Q Y (err transport, s) h = inl refl
  neutral-Outcome Q Y (err provider_transport, s) h = h
  neutral-Outcome Q Y (err provider_not_found, s) h = h
  neutral-Outcome Q Y (err key_error, s) h = h
  neutral-Outcome Q Y (err value_error, s) h = h
  neutral-Outcome Q Y (err unfinished, s) h = h

  -- After the requests `mid` the server of that name was found and deleted, or there was none.
  abbrev pub ServerGone : String → List Request → List Request → Type 0
  ServerGone name mid asked =
      (id : String) × (more : List (Option String)) × (asked
        ≡ delete_server_of id ∷ get_servers name ∷ mid)
      × (servers_of name mid ≡ ok (some id ∷ more))
      × (is_gone (hetzner.reply (suc (length mid)) (delete_server_of id)) ≡ true)

  abbrev pub NoServer : String → List Request → List Request → Type 0
  NoServer name mid asked =
      (asked ≡ get_servers name ∷ mid)
      × ((servers_of name mid ≡ ok [])
          ⊎ ((id : String) × (more : List (Option String)) × (servers_of name mid
                ≡ ok (some id ∷ more))
              × (is_text id ≡ false)))

  delete_found-ServerGone :
      (name : String) (s : State) (servers : Result HetznerFault (List (Option String)))
      → servers_of name s.asked ≡ servers
      → IsPlain servers
      → Outcome
          (λ u s'. ServerGone name s.asked s'.asked)
          (λ e s'. (is_missing e ≡ false) ⊎ NoServer name s.asked s'.asked)
          ((lift servers >>= first_id >>= delete_found hetzner) (note hetzner (get_servers name) s))
  unfolding first_id delete_found delete_server needed request ◌>>=◌ lift attempt pass pure raise
      note
  delete_found-ServerGone name s (err e) listed plain = inl plain
  delete_found-ServerGone name s (ok []) listed plain = inr (refl, inl listed)
  delete_found-ServerGone name s (ok (none ∷ more)) listed plain = inl refl
  delete_found-ServerGone name s (ok (some id ∷ more)) listed plain =
      elim (Bool-cases (is_text id)) [
        | inr blank ↦ rw blank (inr (refl, inr (id, more, listed, blank)))
        | inl named ↦ rw named (
            raised-Outcome (λ s'. ServerGone name s.asked s'.asked)
              (λ s'. NoServer name s.asked s'.asked)
              (or_gone (read_reply (hetzner.reply (suc (length s.asked)) (delete_server_of id)))
                (note hetzner (delete_server_of id) (note hetzner (get_servers name) s)))
              (or_gone-Outcome (hetzner.reply (suc (length s.asked)) (delete_server_of id))
                (note hetzner (delete_server_of id) (note hetzner (get_servers name) s))
                (λ s'. ServerGone name s.asked s'.asked) (λ gone. (id, more, refl, listed, gone))))
      ]

  servers_in-lift :
      (r : Result HetznerFault Payload) (s : State)
      → (lift r >>= λ response. lift (needed response.servers) >>= first_id) s
        ≡ (lift (servers_in r) >>= first_id) s
  unfolding ◌>>=◌ lift
  servers_in-lift (err e) s = refl
  servers_in-lift (ok payload) s = refl

  delete_listed-ServerGone :
      (name : String) (s : State)
      → Outcome
          (λ u s'. ServerGone name s.asked s'.asked)
          (λ e s'. (is_missing e ≡ false) ⊎ NoServer name s.asked s'.asked)
          ((find_server_id_by_name hetzner name >>= delete_found hetzner) s)
  unfolding find_server_id_by_name request ◌>>=◌
  delete_listed-ServerGone name s =
      let reply = hetzner.reply (length s.asked) (get_servers name) in
      rw (servers_in-lift (read_reply reply) (note hetzner (get_servers name) s))
        (delete_found-ServerGone name s _ refl (servers_in-IsPlain _ (read_reply-IsPlain reply)))

  -- The requests up to the lookup of the server.
  with_mid :
      (K : List Request → Type 0) (A B : List Request → State → Type 0) (mid : List Request)
      (x : Result HetznerFault (Unit {0}) × State)
      → K mid
      → Outcome (λ u. A mid) (λ e s'. (is_missing e ≡ false) ⊎ B mid s') x
      → Outcome
          (λ u s'. (m : List Request) × K m × A m s')
          (λ e s'. (is_missing e ≡ false) ⊎ ((m : List Request) × K m × B m s'))
          x
  with_mid K A B mid (ok u, s) k h = (mid, k, h)
  with_mid K A B mid (err e, s) k (inl other) = inl other
  with_mid K A B mid (err e, s) k (inr missing) = inr (mid, k, missing)

-- delete_vm returns only if no key of the machine was found, or the one that was found is deleted, and
-- the server of that name was found and is deleted, where a 404 counts as deleted; it raises
-- ProviderNotFoundError only if, once the key is gone, no server of that name was listed.
pub delete_vm-IsGone :
    (hetzner : Hetzner) (name : String) (s : State)
    → Outcome
        (λ u s'.
          (mid : List Request) × KeyGone hetzner (key_name name) mid
          × ServerGone hetzner name mid s'.asked)
        (λ e s'.
          (is_missing e ≡ false)
          ⊎ ((mid : List Request) × KeyGone hetzner (key_name name) mid
              × NoServer hetzner name mid s'.asked))
        (delete_vm hetzner name s)
unfolding delete_vm delete_all ◌>>=◌ attempt
delete_vm-IsGone hetzner name s = neutral-Outcome hetzner _ _ (delete_all hetzner name s) (
    resume-Outcome hetzner (λ s'. KeyGone hetzner (key_name name) s'.asked) _ _
      (delete_ssh_key hetzner (key_name name) s)
      (find_server_id_by_name hetzner name >>= delete_found hetzner)
      (delete_ssh_key-KeyGone hetzner (key_name name) s)
      (λ s' gone.
        with_mid hetzner (KeyGone hetzner (key_name name))
          (λ mid t. ServerGone hetzner name mid t.asked)
          (λ mid t. NoServer hetzner name mid t.asked) s'.asked
          ((find_server_id_by_name hetzner name >>= delete_found hetzner) s') gone
          (delete_listed-ServerGone hetzner name s')))
