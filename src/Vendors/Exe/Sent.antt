-- ===== src/Vendors/Exe/Sent.antt =====
-- The calls on integrations of src/providers/exe/api.py and the errors of src/providers/exe/provider.py.
use drukbox.Base.{
  ℕ, String, Bool, true, false, ◌≡◌, refl, List, ◌∷◌, ltb, leb, ◌==◌, is_some, length, arith, inl,
  inr, Bool-cases, ◌||◌, not,
}
use drukbox.Base.Op.{Result, ok, err, pure, raise, pass, attempt, ◌>>=◌}
use drukbox.Base.Keeps.{Outcome}
use drukbox.Providers.{ProviderKind}
use drukbox.Vendors.Exe.Reply.{
  ExeError, exe_auth, exe_response, exe_command, exe_vm_not_found, integration_not_found,
  integration_exists, key_error, value_error, Reply, unreachable, replied, read_reply, mentions,
  attachment_error, is_client_error,
}
use drukbox.Vendors.Exe.Commands.{add_command, edit_command, remove_command, binding_command}
use drukbox.Vendors.Exe.Api.{
  Exe, request, instead, send, bound, kind_of, create_http_proxy, update_http_proxy,
  delete_http_proxy, attach_http_proxy, detach_http_proxy,
}

abbrev pub is_accepted : Reply → Bool
is_accepted unreachable = false
is_accepted (replied status text) = ltb status 400

-- The error leaves `ExeProvider` as one of the classes of providers/exceptions.py.
abbrev pub IsKnown : ExeError → Type 0
IsKnown e = is_some (kind_of ProviderKind.target_vm_not_found e) ≡ true

abbrev IsRead : Reply → Result ExeError (List ℕ) → Type 0
IsRead reply (ok text) = is_accepted reply ≡ true
IsRead reply (err e) = (is_accepted reply ≡ false) × IsKnown e

read_reply-IsRead : (reply : Reply) → IsRead reply (read_reply reply)
unfolding read_reply kind_of
read_reply-IsRead unreachable = (refl, refl)
read_reply-IsRead (replied status text) = elim (Bool-cases (status == 401)) [
  | inl auth ↦ rw auth (ground (arith, auth), refl)
  | inr a ↦ elim (Bool-cases (is_client_error status)) [
    | inl refused ↦ rw a (rw refused (ground (arith, refused), refl))
    | inr b ↦ elim (Bool-cases (leb 500 status)) [
      | inl broken ↦ rw a (rw b (rw broken (ground (arith, broken), refl)))
      | inr c ↦ rw a (rw b (rw c (ground (arith, b, c))))
    ]
  ]
]

-- The command was sent, once, and the call returned exactly if exe.dev accepted it.
abbrev pub IsSent :
    Exe → List ℕ → List (List ℕ) → Result ExeError (Unit {0}) × List (List ℕ) → Type 0
IsSent exe command sent =
    Outcome
      (λ _ after. (after ≡ command ∷ sent) × (is_accepted (exe.reply (length sent) command) ≡ true))
      (λ e after.
        (after ≡ command ∷ sent)
        × (is_accepted (exe.reply (length sent) command) ≡ false)
        × IsKnown e)

-- What `instead` and `bound` make of the reply to the command.
module _ (exe : Exe) (command : List ℕ) (sent : List (List ℕ)) where
  instead-IsSent :
      (phrase : String) (other : ExeError) (r : Result ExeError (List ℕ))
      → IsKnown other
      → IsRead (exe.reply (length sent) command) r
      → IsSent exe command sent ((instead exe phrase other r >>= λ text. pass) (command ∷ sent))
  unfolding instead kind_of ◌>>=◌ pass raise pure
  instead-IsSent phrase other (ok text) known read = (refl, read)
  instead-IsSent phrase other (err (exe_command detail)) known read =
      elim (Bool-cases (mentions phrase detail)) [
        | inl found ↦ rw found (refl, read.0, known)
        | inr absent ↦ rw absent (refl, read.0, refl)
      ]
  instead-IsSent phrase other (err exe_auth) known read = (refl, read.0, read.1)
  instead-IsSent phrase other (err exe_response) known read = (refl, read.0, read.1)
  instead-IsSent phrase other (err (exe_vm_not_found name)) known read = (refl, read.0, read.1)
  instead-IsSent phrase other (err (integration_not_found name)) known read = (refl, read.0, read.1)
  instead-IsSent phrase other (err (integration_exists name)) known read = (refl, read.0, read.1)
  instead-IsSent phrase other (err key_error) known read = (refl, read.0, read.1)
  instead-IsSent phrase other (err value_error) known read = (refl, read.0, read.1)

  attachment_error-IsKnown :
      (name vm : String) (detail : List ℕ) → IsKnown (attachment_error name vm detail)
  unfolding attachment_error kind_of
  attachment_error-IsKnown name vm detail = elim (Bool-cases (not (mentions "not found" detail))) [
    | inl other ↦ rw other refl
    | inr missing ↦
        elim (Bool-cases (
          mentions "integration" detail
          || mentions "http-proxy" detail
          || mentions "http_proxy" detail)) [
            | inl integration ↦ rw missing (rw integration refl)
            | inr machine ↦ rw missing (rw machine refl)
          ]
  ]

  bound-IsSent :
      (name vm : String) (r : Result ExeError (List ℕ))
      → IsRead (exe.reply (length sent) command) r
      → IsSent exe command sent (bound exe name vm r (command ∷ sent))
  unfolding bound kind_of pass raise
  bound-IsSent name vm (ok text) read = (refl, read)
  bound-IsSent name vm (err (exe_command detail)) read =
      (refl, read.0, attachment_error-IsKnown name vm detail)
  bound-IsSent name vm (err exe_auth) read = (refl, read.0, read.1)
  bound-IsSent name vm (err exe_response) read = (refl, read.0, read.1)
  bound-IsSent name vm (err (exe_vm_not_found other)) read = (refl, read.0, read.1)
  bound-IsSent name vm (err (integration_not_found other)) read = (refl, read.0, read.1)
  bound-IsSent name vm (err (integration_exists other)) read = (refl, read.0, read.1)
  bound-IsSent name vm (err key_error) read = (refl, read.0, read.1)
  bound-IsSent name vm (err value_error) read = (refl, read.0, read.1)

-- Each of the five calls on integrations sends its one command and returns exactly if exe.dev accepted
-- it; whatever exe.dev answers, an error is one that ExeProvider turns into a ProviderError.
pub http_proxies-AreSent :
    (exe : Exe) (name target vm : String) (headers : List (String × String)) (sent : List (List ℕ))
    → IsSent exe
        (add_command name target headers)
        sent
        (create_http_proxy exe name target headers sent)
      × IsSent exe
          (edit_command name target headers)
          sent
          (update_http_proxy exe name target headers sent)
      × IsSent exe (remove_command name) sent (delete_http_proxy exe name sent)
      × IsSent exe (binding_command "attach" name vm) sent (attach_http_proxy exe name vm sent)
      × IsSent exe (binding_command "detach" name vm) sent (detach_http_proxy exe name vm sent)
unfolding create_http_proxy update_http_proxy delete_http_proxy attach_http_proxy detach_http_proxy
    send request kind_of attempt ◌>>=◌ pass
http_proxies-AreSent exe name target vm headers sent =
    let read = λ (command : List ℕ). read_reply-IsRead (exe.reply (length sent) command) in
    let add = add_command name target headers in
    let edit = edit_command name target headers in
    (
      instead-IsSent exe add sent "already exists" (integration_exists name) _ refl (read add),
      instead-IsSent exe edit sent "not found" (integration_not_found name) _ refl (read edit),
      instead-IsSent exe (remove_command name) sent "not found" (integration_not_found name) _ refl
          (read (remove_command name)),
      bound-IsSent exe (binding_command "attach" name vm) sent name vm _
          (read (binding_command "attach" name vm)),
      bound-IsSent exe (binding_command "detach" name vm) sent name vm _
          (read (binding_command "detach" name vm)),
    )
