-- ===== src/Execution/Policy.antt =====
-- backend/src/spidey/execution/domain/policy.py: the admission of a command, a list of tokens. `repr` of
-- the standard library is a parameter.
pub mod Admitted
use Prim.Native.Char.{code}
use spidey.Base.{
  ℕ, String, Bool, true, false, not, ◌&&◌, ◌||◌, Option, none, some, List, [], ◌∷◌, ◌==◌,
  if◌then◌else◌, str_eq, str_strip, is_space, str_truthy, str_concat,
}

pub data Admission : Type 0 where
  allowed needs_approval denied : Admission

pub data NetworkPolicy : Type 0 where
  no_network egress_proxy : NetworkPolicy

pub record CommandDecision : Type 0 where
  pub admission : Admission
  pub reason : String
  pub network : NetworkPolicy

-- `CommandDecision.allowed`
abbrev pub is_allowed : CommandDecision → Bool
is_allowed d = elim d.admission [ Admission.allowed ↦ true | _ ↦ false ]

abbrev pub has_text : String → List String → Bool
has_text s [] = false
has_text s (t ∷ ts) = str_eq t s || has_text s ts

abbrev pub allowed_commands : List String
allowed_commands =
    "pytest" ∷ "python" ∷ "python3" ∷ "ruff" ∷ "mypy" ∷ "pyright" ∷ "node" ∷ "npm" ∷ "npx" ∷ "pnpm"
    ∷ "yarn" ∷ "go" ∷ "cargo" ∷ "make" ∷ "ls" ∷ "cat" ∷ "echo" ∷ "true" ∷ "git" ∷ []

abbrev network_table : List (String × List String)
network_table =
    ("npm", "install" ∷ "ci" ∷ "i" ∷ "add" ∷ "update" ∷ "audit" ∷ [])
    ∷ ("pnpm", "install" ∷ "add" ∷ "update" ∷ [])
    ∷ ("yarn", "install" ∷ "add" ∷ "up" ∷ [])
    ∷ ("pip", "install" ∷ "download" ∷ [])
    ∷ ("go", "get" ∷ "install" ∷ "mod" ∷ [])
    ∷ ("cargo", "install" ∷ "update" ∷ "fetch" ∷ [])
    ∷ ("git", "clone" ∷ "fetch" ∷ "pull" ∷ "push" ∷ "remote" ∷ [])
    ∷ []

abbrev subcommands_of : String → List (String × List String) → List String
subcommands_of s [] = []
subcommands_of s ((k, v) ∷ t) = if str_eq k s then v else subcommands_of s t

-- The characters of `_SHELL_METACHARS`; 92 is the backslash, 34 and 39 are the quotes.
abbrev pub is_metachar : ℕ → Bool
is_metachar c =
    c == b';'
    || c == b'&'
    || c == b'|'
    || c == b'<'
    || c == b'>'
    || c == b'$'
    || c == b'`'
    || c == 10
    || c == 13
    || c == 92
    || c == 34
    || c == 39
    || c == b'*'
    || c == b'?'
    || c == b'('
    || c == b')'
    || c == b'{'
    || c == b'}'

unfoldable pub has_metachar : String → Bool
has_metachar String.[] = false
has_metachar (String.◌∷◌ c s) = is_metachar (code c) || has_metachar s

abbrev is_slash : ℕ → Bool
is_slash c = c == b'/' || c == 92

has_slash : String → Bool
has_slash String.[] = false
has_slash (String.◌∷◌ c s) = is_slash (code c) || has_slash s

-- `_basename`: what follows the last slash, of either kind.
unfoldable pub basename : String → String
unfolding has_slash
basename String.[] = String.[]
basename (String.◌∷◌ c s) =
    let rest = basename s in
    if has_slash s then rest else if is_slash (code c) then s else String.◌∷◌ c s

abbrev pub starts_dash : String → Bool
starts_dash String.[] = false
starts_dash (String.◌∷◌ c s) = code c == b'-'

-- `_first_subcommand` of the tokens behind the executable.
unfoldable pub first_subcommand : List String → Option String
first_subcommand [] = none
first_subcommand (t ∷ ts) = if starts_dash t then first_subcommand ts else some t

abbrev among : Option String → List String → Bool
among none ts = false
among (some s) ts = has_text s ts

-- The command's subcommand is one of those that fetch.
unfoldable pub needs_network : (executable : String) → (tokens : List String) → Bool
needs_network executable tokens =
    among (first_subcommand tokens) (subcommands_of executable network_table)

pub record CommandPolicy : Type 0 where
  pub allowed_names : List String
  pub allow_network : Bool

abbrev pub decide : Admission → String → NetworkPolicy → CommandDecision
decide admission reason network = record {
  admission = admission;
  reason = reason;
  network = network;
}

-- `_evaluate_network`
unfoldable pub evaluate_network : CommandPolicy → String → List String → CommandDecision
evaluate_network p executable tokens =
    if needs_network executable tokens
    then if p.allow_network
      then decide Admission.allowed
          (str_concat (executable ∷ " network subcommand (pre-authorized egress)" ∷ []))
          NetworkPolicy.egress_proxy
      else decide Admission.needs_approval
          (str_concat (executable ∷ " needs network — requires approval + egress proxy" ∷ []))
          NetworkPolicy.egress_proxy
    else decide Admission.allowed (str_concat (executable ∷ " is allow-listed" ∷ []))
        NetworkPolicy.no_network

module _ (repr : String → String) where
  unfoldable pub evaluate : CommandPolicy → List String → CommandDecision
  evaluate p [] = decide Admission.denied "empty command" NetworkPolicy.no_network
  evaluate p (command ∷ tokens) =
      if not (str_truthy (str_strip is_space command))
      then decide Admission.denied "empty command" NetworkPolicy.no_network
      else if has_metachar command
      then decide Admission.denied "shell metacharacter in executable — argv only, no shell"
          NetworkPolicy.no_network
      else if not (str_truthy (basename command))
      then decide Admission.denied "malformed executable" NetworkPolicy.no_network
      else if not (has_text (basename command) p.allowed_names)
      then decide Admission.needs_approval
          (str_concat (repr (basename command) ∷ " is not on the allow-list" ∷ []))
          NetworkPolicy.no_network
      else evaluate_network p (basename command) tokens
