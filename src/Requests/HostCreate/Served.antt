-- ===== src/Requests/HostCreate/Served.antt =====
-- What the secrets of an accepted create promise to the rest of the code.
use drukbox.Base.{
  String, ◌≡◌, refl, ap, ◌∙◌, Bool, true, false, Option, none, some, List, [], ◌∷◌, is_some, lookup,
  put, arith, inl, inr, Bool-cases, Option-cases,
}
use mathlib.Core.Bool.{false≢true}
use mathlib.Core.Path.{subst}
use drukbox.Base.Op.{Result, ok, err}
use drukbox.Exchange.Secret.{codes}
use drukbox.HostSecrets.Catalog.{Entry, Service, service, catalog, built_in_hosts}
use drukbox.Requests.Patterns.{is_secret_name}
use drukbox.Requests.SecretEntry.{SecretEntry, is_named, to_storage}
use drukbox.Requests.HostCreate.{
  Refusal, key_error, Check, is_known, add_variable, take_variable, check_secret, check_secrets,
}

-- Each entry has a service, and its variable is not among those taken before it.
pub data AreServed : List (String × String) → List (String × SecretEntry) → Type 0 where
  done : {taken : List (String × String)} → AreServed taken []
  served :
      {taken : List (String × String)} {name : String} {entry : SecretEntry}
      {secrets : List (String × SecretEntry)} (known : Service)
      → is_secret_name (codes name) ≡ true
      → service name (to_storage entry) ≡ some known
      → lookup known.auth_variable taken ≡ none
      → AreServed (put known.auth_variable name taken) secrets
      → AreServed taken ((name, entry) ∷ secrets)

built_in_or-some :
    (o : Option Service) (custom : Service)
    → is_some (elim o as (λ x. Option Service) [ none ↦ some custom | some known ↦ some known ])
      ≡ true
built_in_or-some none custom = refl
built_in_or-some (some known) custom = refl

service-of_host :
    (name host : String) (entry : Entry)
    → entry.host ≡ some host
    → is_some (service name entry) ≡ true
unfolding service
service-of_host name host entry h = rw h (built_in_or-some (lookup host built_in_hosts) _)

service-of_catalog :
    (name : String) (entry : Entry) → entry.host ≡ none → service name entry ≡ lookup name catalog
unfolding service
service-of_catalog name entry h = rw h refl

named-some : (o : Option String) → is_named o ≡ true → (host : String) × (o ≡ some host)
named-some none h = absurd (false≢true h)
named-some (some host) h = (host, refl)

service-known :
    (name : String) (entry : SecretEntry)
    → is_known name entry ≡ true
    → is_some (service name (to_storage entry)) ≡ true
unfolding to_storage
service-known name entry h = elim (Bool-cases (is_named entry.host)) [
  | inr unnamed ↦
      ap is_some (service-of_catalog name (to_storage entry) (rw unnamed refl))
      ∙ ground (arith, h, unnamed)
  | inl named ↦
      let (host, there) = named-some entry.host named in
      service-of_host name host (to_storage entry) (rw named there)
]

-- A round that is passed: its name, its service, and the names so far with the new variable.
record Round (taken : List (String × String)) (name : String) (entry : SecretEntry)
    (more : List (String × String)) : Type 0 where
  known : Service
  named : is_secret_name (codes name) ≡ true
  of_service : service name (to_storage entry) ≡ some known
  free : lookup known.auth_variable taken ≡ none
  grown : more ≡ put known.auth_variable name taken

abbrev is_key_error : Refusal → Bool
is_key_error key_error = true
is_key_error _ = false

abbrev IsRound :
    List (String × String) → String → SecretEntry → Result Refusal (List (String × String)) → Type 0
IsRound taken name entry (ok more) = Round taken name entry more
IsRound taken name entry (err e) = is_key_error e ≡ false

take_variable-IsRound :
    (taken : List (String × String)) (name : String) (entry : SecretEntry) (o : Option Service)
    → is_secret_name (codes name) ≡ true
    → is_some o ≡ true
    → service name (to_storage entry) ≡ o
    → IsRound taken name entry (take_variable taken name o)
unfolding take_variable add_variable
take_variable-IsRound taken name entry none named there of_service = absurd (false≢true there)
take_variable-IsRound taken name entry (some known) named there of_service =
    elim (Option-cases (lookup known.auth_variable taken)) [
      | inr (first, used) ↦ rw used refl
      | inl free ↦ rw free (record {
        known = known;
        named = named;
        of_service = of_service;
        free = free;
        grown = refl;
      })
    ]

check_secret-IsRound :
    (taken : List (String × String)) (name : String) (entry : SecretEntry)
    → IsRound taken name entry (check_secret taken name entry)
unfolding check_secret
check_secret-IsRound taken name entry = elim (Bool-cases (is_secret_name (codes name))) [
  | inr bad ↦ rw bad refl
  | inl named ↦ rw named (elim (Bool-cases (is_known name entry)) [
    | inr unknown ↦ rw unknown refl
    | inl known ↦ rw known (
        take_variable-IsRound taken name entry (service name (to_storage entry)) named
          (service-known name entry known) refl)
  ])
]

-- What a check of the secrets says of them: they are served, or it is a refusal of the validator.
abbrev pub IsChecked : List (String × String) → List (String × SecretEntry) → Check → Type 0
IsChecked taken secrets (ok u) = AreServed taken secrets
IsChecked taken secrets (err e) = is_key_error e ≡ false

-- The loop after its first round.
abbrev checked_rest : List (String × SecretEntry) → Result Refusal (List (String × String)) → Check
checked_rest secrets (err e) = err e
checked_rest secrets (ok more) = check_secrets more secrets

Round-IsChecked :
    (taken : List (String × String)) (name : String) (entry : SecretEntry)
    (secrets : List (String × SecretEntry)) (more : List (String × String))
    → Round taken name entry more
    → (r : Check) → IsChecked more secrets r
    → IsChecked taken ((name, entry) ∷ secrets) r
Round-IsChecked taken name entry secrets more round (err e) h = h
Round-IsChecked taken name entry secrets more round (ok u) h =
    served round.known round.named round.of_service round.free
      (subst (λ m. AreServed m secrets) round.grown h)

checked_rest-IsChecked :
    (taken : List (String × String)) (name : String) (entry : SecretEntry)
    (secrets : List (String × SecretEntry)) (r : Result Refusal (List (String × String)))
    → IsRound taken name entry r
    → ((more : List (String × String)) → IsChecked more secrets (check_secrets more secrets))
    → IsChecked taken ((name, entry) ∷ secrets) (checked_rest secrets r)
checked_rest-IsChecked taken name entry secrets (err e) round rest = round
checked_rest-IsChecked taken name entry secrets (ok more) round rest =
    Round-IsChecked taken name entry secrets more round (check_secrets more secrets) (rest more)

-- The validator accepts secrets only if each has a name of the pattern and a service, and no two
-- services put their credential into one variable; so `catalog.service` finds the service of every
-- entry that is stored, and the validator itself never raises the KeyError of one that is not there.
pub check_secrets-IsChecked :
    (taken : List (String × String)) (secrets : List (String × SecretEntry))
    → IsChecked taken secrets (check_secrets taken secrets)
unfolding check_secrets
check_secrets-IsChecked taken [] = done
check_secrets-IsChecked taken ((name, entry) ∷ secrets) =
    checked_rest-IsChecked taken name entry secrets (check_secret taken name entry)
      (check_secret-IsRound taken name entry) (λ more. check_secrets-IsChecked more secrets)
