-- ===== src/Vendors/Exe/Words.antt =====
-- The command lines of src/providers/exe/api.py, as a shell splits them into words.
use drukbox.Base.{
  ℕ, String, is_text, true, ◌≡◌, refl, sym, ap, ◌∙◌, Option, none, some, List, [], ◌∷◌, ◌++◌,
  if◌then◌else◌, all, inl, inr, Bool-cases,
}
use mathlib.Core.List.{append-nil}
use drukbox.Exchange.Secret.{codes}
use drukbox.Providers.Environment.{Variables, quote, is_safe}
use drukbox.Providers.Environment.Quoting.{bare}
use drukbox.Vendors.Exe.Commands.{
  join_blank, quoted, option, option_if, auth_option, env_arguments, header_arguments, new_command,
  add_command, edit_command, remove_command, binding_command, machine_command, rename_command,
  list_command,
}
use drukbox.Providers.Environment.Words.{
  first_word, read_words, IsWord, safe-IsWord, quote-IsWord, append-IsWord,
}

abbrev pub AreWords : List (List ℕ) → List (List ℕ) → Type 0
AreWords [] [] = Unit
AreWords (part ∷ parts) (text ∷ texts) = IsWord part text × AreWords parts texts
AreWords _ _ = ⊥

join_blank-words :
    (part text : List ℕ) (parts texts : List (List ℕ))
    → AreWords (part ∷ parts) (text ∷ texts)
    → read_words bare [] (join_blank (part ∷ parts)) ≡ some (text ∷ texts)
unfolding join_blank read_words
join_blank-words part text [] [] w = ap (read_words bare []) (sym (append-nil part)) ∙ w.0 [] []
join_blank-words part text (p ∷ parts) [] w = absurd w.1
join_blank-words part text [] (t ∷ texts) w = absurd w.1
join_blank-words part text (p ∷ parts) (t ∷ texts) w =
    w.0 [] (b' ' ∷ join_blank (p ∷ parts))
    ∙ ap (first_word text) (join_blank-words p t parts texts w.1)

option-IsWord :
    (name text : String)
    → all is_safe (codes name) ≡ true
    → IsWord (option name text) (codes name ++ codes text)
option-IsWord name text h =
    append-IsWord (codes name) (quoted text) (codes name) (codes text) (safe-IsWord (codes name) h)
      (quote-IsWord (codes text))

-- The headers as exe.dev is to have them, each one argument.
abbrev pub header_texts : List (String × String) → List (List ℕ)
header_texts [] = []
header_texts ((name, value) ∷ headers) =
    (codes "--header=" ++ (codes name ++ codes ": " ++ codes value)) ∷ header_texts headers

headers-AreWords :
    (headers : List (String × String)) → AreWords (header_arguments headers) (header_texts headers)
unfolding header_arguments
headers-AreWords [] = tt
headers-AreWords ((name, value) ∷ headers) = (
  append-IsWord (codes "--header=") _ (codes "--header=") _ (safe-IsWord (codes "--header=") refl)
      (quote-IsWord (codes name ++ codes ": " ++ codes value)),
  headers-AreWords headers,
)

AreWords-append :
    (parts texts more others : List (List ℕ))
    → AreWords parts texts
    → AreWords more others
    → AreWords (parts ++ more) (texts ++ others)
AreWords-append [] [] more others p q = q
AreWords-append (part ∷ parts) (text ∷ texts) more others p q =
    (p.0, AreWords-append parts texts more others p.1 q)
AreWords-append [] (text ∷ texts) more others p q = absurd p
AreWords-append (part ∷ parts) [] more others p q = absurd p

abbrev pub option_texts : String → Option String → List (List ℕ)
option_texts name none = []
option_texts name (some text) = if is_text text then (codes name ++ codes text) ∷ [] else []

option_if-AreWords :
    (name : String) (text : Option String)
    → all is_safe (codes name) ≡ true
    → AreWords (option_if name text) (option_texts name text)
option_if-AreWords name none h = tt
option_if-AreWords name (some text) h = elim (Bool-cases (is_text text)) [
  | inl full ↦ rw full (option-IsWord name text h, tt)
  | inr blank ↦ rw blank tt
]

abbrev pub pattern_texts : String → List (List ℕ)
pattern_texts pattern = if is_text pattern then codes pattern ∷ [] else []

pattern-AreWords :
    (pattern : String)
    → AreWords (if is_text pattern then quoted pattern ∷ [] else []) (pattern_texts pattern)
pattern-AreWords pattern = elim (Bool-cases (is_text pattern)) [
  | inl full ↦ rw full (quote-IsWord (codes pattern), tt)
  | inr blank ↦ rw blank tt
]

abbrev pub auth_texts : Option (List ℕ) → List (List ℕ)
auth_texts none = []
auth_texts (some auth) = (codes "--registry-auth=" ++ auth) ∷ []

auth-AreWords : (auth : Option (List ℕ)) → AreWords (auth_option auth) (auth_texts auth)
auth-AreWords none = tt
auth-AreWords (some auth) = (
  append-IsWord (codes "--registry-auth=") (quote auth) (codes "--registry-auth=") auth
      (safe-IsWord (codes "--registry-auth=") refl) (quote-IsWord auth),
  tt,
)

abbrev pub env_texts : Variables → List (List ℕ)
env_texts [] = []
env_texts ((key, value) ∷ env) = codes "--env" ∷ (codes key ++ b'=' ∷ codes value) ∷ env_texts env

env-AreWords : (env : Variables) → AreWords (env_arguments env) (env_texts env)
unfolding env_arguments
env-AreWords [] = tt
env-AreWords ((key, value) ∷ env) = (
  safe-IsWord (codes "--env") refl,
  (quote-IsWord (codes key ++ b'=' ∷ codes value), env-AreWords env),
)

-- The arguments that `new` is to have, without a setup script.
abbrev pub new_texts : String → Option String → Option (List ℕ) → List ℕ → Variables → List (List ℕ)
new_texts name image auth tag env =
    (codes "new" ∷ codes "--json" ∷ option_texts "--name=" (some name))
    ++ (option_texts "--image=" image
        ++ (auth_texts auth
            ++ ([] ++ ((codes "--tag=" ++ tag) ∷ codes "--no-email" ∷ env_texts env))))

new-AreWords :
    (name : String) (image : Option String) (auth : Option (List ℕ)) (tag : List ℕ)
    (env : Variables)
    → AreWords
        ((codes "--json" ∷ option_if "--name=" (some name))
          ++ (option_if "--image=" image
              ++ (auth_option auth
                  ++ ([]
                      ++ ((codes "--tag=" ++ quote tag)
                          ∷ codes "--no-email"
                          ∷ env_arguments env)))))
        ((codes "--json" ∷ option_texts "--name=" (some name))
          ++ (option_texts "--image=" image
              ++ (auth_texts auth
                  ++ ([] ++ ((codes "--tag=" ++ tag) ∷ codes "--no-email" ∷ env_texts env)))))
new-AreWords name image auth tag env =
    AreWords-append (codes "--json" ∷ option_if "--name=" (some name))
      (codes "--json" ∷ option_texts "--name=" (some name)) _ _
      (safe-IsWord (codes "--json") refl, option_if-AreWords "--name=" (some name) refl)
      (AreWords-append (option_if "--image=" image) (option_texts "--image=" image) _ _
        (option_if-AreWords "--image=" image refl)
        (AreWords-append (auth_option auth) (auth_texts auth) _ _ (auth-AreWords auth) (
          append-IsWord (codes "--tag=") (quote tag) (codes "--tag=") tag
              (safe-IsWord (codes "--tag=") refl) (quote-IsWord tag),
          (safe-IsWord (codes "--no-email") refl, env-AreWords env),
        )))

-- A shell splits the command into these words.
abbrev pub Reads : List ℕ → List (List ℕ) → Type 0
Reads command words = read_words bare [] command ≡ some words

integration-Reads :
    (verb : List ℕ) (parts texts : List (List ℕ))
    → all is_safe verb ≡ true
    → AreWords parts texts
    → Reads (join_blank (codes "integrations" ∷ verb ∷ parts)) (codes "integrations" ∷ verb ∷ texts)
integration-Reads verb parts texts safe words =
    join_blank-words (codes "integrations") (codes "integrations") (verb ∷ parts) (verb ∷ texts)
      (safe-IsWord (codes "integrations") refl, (safe-IsWord verb safe, words))

machine-Reads :
    (verb : List ℕ) (parts texts : List (List ℕ))
    → all is_safe verb ≡ true
    → AreWords parts texts
    → Reads (join_blank (verb ∷ codes "--json" ∷ parts)) (verb ∷ codes "--json" ∷ texts)
machine-Reads verb parts texts safe words =
    join_blank-words verb verb (codes "--json" ∷ parts) (codes "--json" ∷ texts)
      (safe-IsWord verb safe, (safe-IsWord (codes "--json") refl, words))

-- A shell that splits a command of `ExeAPI` on integrations or on machines, or its `new` without a
-- setup script, finds the arguments that were meant, each of them whole: no name, target, header,
-- machine, image, credential, tag or variable, whatever it holds, adds an argument or ends one.
pub read_words-command :
    (name target vm new_name pattern : String) (headers : List (String × String))
    (image : Option String) (auth : Option (List ℕ)) (tag : List ℕ) (env : Variables)
    → Reads (add_command name target headers) (
        codes "integrations"
        ∷ codes "add"
        ∷ codes "http-proxy"
        ∷ (codes "--name=" ++ codes name)
        ∷ (codes "--target=" ++ codes target)
        ∷ header_texts headers)
      × Reads (edit_command name target headers) (
          codes "integrations"
          ∷ codes "edit"
          ∷ codes name
          ∷ (codes "--target=" ++ codes target)
          ∷ header_texts headers)
      × Reads
          (binding_command "attach" name vm)
          (codes "integrations" ∷ codes "attach" ∷ codes name ∷ (codes "vm:" ++ codes vm) ∷ [])
      × Reads
          (binding_command "detach" name vm)
          (codes "integrations" ∷ codes "detach" ∷ codes name ∷ (codes "vm:" ++ codes vm) ∷ [])
      × Reads (remove_command name) (codes "integrations" ∷ codes "remove" ∷ codes name ∷ [])
      × Reads (machine_command "rm" vm) (codes "rm" ∷ codes "--json" ∷ codes vm ∷ [])
      × Reads (machine_command "restart" vm) (codes "restart" ∷ codes "--json" ∷ codes vm ∷ [])
      × Reads
          (rename_command vm new_name)
          (codes "rename" ∷ codes "--json" ∷ codes vm ∷ codes new_name ∷ [])
      × Reads
          (list_command pattern)
          (codes "ls" ∷ codes "--json" ∷ codes "-l" ∷ pattern_texts pattern)
      × Reads (new_command name image auth [] tag env) (new_texts name image auth tag env)
read_words-command name target vm new_name pattern headers image auth tag env =
    let named = quote-IsWord (codes name) in
    let machine = quote-IsWord (codes vm) in
    let bound = quote-IsWord (codes "vm:" ++ codes vm) in
    let to = option-IsWord "--target=" target refl in
    (
      integration-Reads (codes "add") _ _ refl (
        safe-IsWord (codes "http-proxy") refl,
        (option-IsWord "--name=" name refl, (to, headers-AreWords headers)),
      ),
      integration-Reads (codes "edit") _ _ refl (named, (to, headers-AreWords headers)),
      integration-Reads (codes "attach") (quoted name ∷ quote (codes "vm:" ++ codes vm) ∷ [])
          (codes name ∷ (codes "vm:" ++ codes vm) ∷ []) refl (named, (bound, tt)),
      integration-Reads (codes "detach") (quoted name ∷ quote (codes "vm:" ++ codes vm) ∷ [])
          (codes name ∷ (codes "vm:" ++ codes vm) ∷ []) refl (named, (bound, tt)),
      integration-Reads (codes "remove") (quoted name ∷ []) (codes name ∷ []) refl (named, tt),
      machine-Reads (codes "rm") (quoted vm ∷ []) (codes vm ∷ []) refl (machine, tt),
      machine-Reads (codes "restart") (quoted vm ∷ []) (codes vm ∷ []) refl (machine, tt),
      machine-Reads (codes "rename") (quoted vm ∷ quoted new_name ∷ [])
          (codes vm ∷ codes new_name ∷ []) refl (machine, (quote-IsWord (codes new_name), tt)),
      machine-Reads (codes "ls")
          (codes "-l" ∷ (if is_text pattern then quoted pattern ∷ [] else []))
          (codes "-l" ∷ pattern_texts pattern) refl
          (safe-IsWord (codes "-l") refl, pattern-AreWords pattern),
      join_blank-words (codes "new") (codes "new") _ _
          (safe-IsWord (codes "new") refl, new-AreWords name image auth tag env),
    )
