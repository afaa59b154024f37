-- ===== src/Requests/HostCreate/Environment.antt =====
-- What the variables of an accepted create promise.
use drukbox.Base.{
  ℕ, String, ◌≡◌, refl, Bool, true, false, not, List, [], ◌∷◌, str_eq, is_empty, all, arith, inl,
  inr, Bool-cases,
}
use drukbox.Base.Op.{ok, Result-cases}
use drukbox.Exchange.Secret.{codes}
use drukbox.Providers.Environment.{Variables, get_persist, is_name}
use drukbox.Requests.HostCreate.{keys_if, is_reserved, check_env}

keys_if-all :
    (p q : String → Bool) (env : Variables)
    → ((k : String) → not (p k) ≡ q k)
    → is_empty (keys_if p env) ≡ true
    → all (λ e. q e.0) env ≡ true
unfolding keys_if
keys_if-all p q [] agree h = refl
keys_if-all p q ((key, value) ∷ env) agree h = elim (Bool-cases (p key)) [
  | inl bad ↦ absurd (ground (arith, bad, h))
  | inr good ↦ ground (arith, good, agree key, keys_if-all p q env agree (ground (arith, good, h)))
]

not_twice : (b : Bool) → not (not b) ≡ b
not_twice true = refl
not_twice false = refl

-- Every key is a name, none is reserved, and the lines for /etc/environment are there.
pub record IsAccepted (env : Variables) : Type 0 where
  pub names : all (λ e. is_name (codes e.0)) env ≡ true
  pub unreserved : all (λ e. not (str_eq e.0 "TAILSCALE_AUTHKEY")) env ≡ true
  pub lines : List (List ℕ)
  pub persistent : get_persist env ≡ ok lines

-- Variables are accepted only if every key is a variable name, the key of the tailnet is not among
-- them, and `get_persist` takes them all, so that no provider refuses them later.
pub check_env-IsAccepted : (env : Variables) → check_env env ≡ ok tt → IsAccepted env
unfolding check_env
check_env-IsAccepted env h =
    elim (Bool-cases (is_empty (keys_if (λ k. not (is_name (codes k))) env))) [
      | inr bad ↦ absurd (ground (arith, bad, h))
      | inl names ↦ elim (Bool-cases (is_empty (keys_if is_reserved env))) [
        | inr reserved ↦ absurd (ground (arith, names, reserved, h))
        | inl free ↦ elim (Result-cases (get_persist env)) [
          | inl (text, refused) ↦ absurd (ground (arith, names, free, refused, h))
          | inr (lines, there) ↦ record {
            names = keys_if-all _ _ env (λ k. not_twice (is_name (codes k))) names;
            unreserved = keys_if-all _ _ env (λ k. refl) free;
            lines = lines;
            persistent = there;
          }
        ]
      ]
    ]
