-- ===== src/Vendors/Exe/Provider/Credentials.antt =====
-- The registry's credentials in `create_vm` of src/providers/exe/provider.py.
use drukbox.Base.{
  ℕ, String, true, ◌≡◌, refl, ap, List, [], ◌∷◌, Option, none, ◌==◌, arith, inl, inr, Bool-cases,
  ==→eq,
}
use drukbox.Exchange.Secret.{codes}
use drukbox.Providers.Environment.{Variables}
use drukbox.Vendors.Exe.Api.{Exe}
use drukbox.Vendors.Exe.Provider.{
  Registry, registry_of, is_same_text, is_own, get_registry_auth, create_vm,
}

is_same_text→eq : (a b : List ℕ) → is_same_text a b ≡ true → a ≡ b
unfolding is_same_text
is_same_text→eq [] [] h = refl
is_same_text→eq [] (d ∷ ds) h = ground (arith, h)
is_same_text→eq (c ∷ cs) [] h = ground (arith, h)
is_same_text→eq (c ∷ cs) (d ∷ ds) h =
    let head : (c == d) ≡ true = ground (arith, h) in
    rw (==→eq c d head) (ap (λ t. d ∷ t) (is_same_text→eq cs ds (ground (arith, h))))

get_registry_auth-other :
    (registry : Registry) (image : String)
    → ¬ (registry_of (codes image) ≡ codes registry.host)
    → get_registry_auth registry image ≡ none
unfolding get_registry_auth is_own
get_registry_auth-other registry image other = elim (Bool-cases (is_own registry image)) [
  | inl own ↦ absurd (other (is_same_text→eq _ _ (ground (arith, own))))
  | inr foreign ↦ rw foreign refl
]

-- The credentials of the registry go to no other host: for an image of another registry `create_vm`
-- sends the same command and has the same result whatever the credentials are.
pub create_vm-other_registry :
    (exe : Exe) (registry : Registry) (username password : List ℕ) (name image : String)
    (env : Variables) (script : Option (List ℕ)) (sent : List (List ℕ))
    → ¬ (registry_of (codes image) ≡ codes registry.host)
    → create_vm exe registry name image env script sent
      ≡ create_vm exe
          (record { host = registry.host; username = username; password = password })
          name
          image
          env
          script
          sent
unfolding create_vm
create_vm-other_registry exe registry username password name image env script sent other =
    let given : Registry = record {
      host = registry.host;
      username = username;
      password = password;
    } in
    rw (get_registry_auth-other registry image other)
      (rw (get_registry_auth-other given image other) refl)
