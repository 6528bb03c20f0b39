-- ===== src/Execution/Policy/Admitted.antt =====
-- backend/src/spidey/execution/domain/policy.py: what runs without a human.
use Prim.Native.Char.{code}
use spidey.Base.{
  ℕ, String, Bool, true, false, ◌||◌, ◌==◌, ◌≡◌, List, [], ◌∷◌, arith, str_eq, if◌then◌else◌,
}
use spidey.Execution.Policy.{
  NetworkPolicy, CommandPolicy, is_allowed, has_text, evaluate_network, evaluate,
}

-- A character with this code stands in the text.
abbrev pub holds : ℕ → String → Bool
holds c String.[] = false
holds c (String.◌∷◌ d s) = (code d == c) || holds c s

-- What a shell would act on: separators, redirections, expansions, line ends, the backslash, quotes,
-- globs and groups.
abbrev pub shell_characters : List ℕ
shell_characters =
    b';' ∷ b'&' ∷ b'|' ∷ b'<' ∷ b'>' ∷ b'$' ∷ b'`' ∷ 10 ∷ 13 ∷ 92 ∷ 34 ∷ 39 ∷ b'*' ∷ b'?' ∷ b'('
    ∷ b')' ∷ b'{' ∷ b'}' ∷ []

-- The subcommands that reach for the network, by their tool.
abbrev pub fetches : String → String → Bool
fetches tool sub =
    if str_eq "npm" tool
    then has_text sub ("install" ∷ "ci" ∷ "i" ∷ "add" ∷ "update" ∷ "audit" ∷ [])
    else if str_eq "pnpm" tool
    then has_text sub ("install" ∷ "add" ∷ "update" ∷ [])
    else if str_eq "yarn" tool
    then has_text sub ("install" ∷ "add" ∷ "up" ∷ [])
    else if str_eq "pip" tool
    then has_text sub ("install" ∷ "download" ∷ [])
    else if str_eq "go" tool
    then has_text sub ("get" ∷ "install" ∷ "mod" ∷ [])
    else if str_eq "cargo" tool
    then has_text sub ("install" ∷ "update" ∷ "fetch" ∷ [])
    else if str_eq "git" tool
    then has_text sub ("clone" ∷ "fetch" ∷ "pull" ∷ "push" ∷ "remote" ∷ [])
    else false

module _ (repr : String → String) where
  -- A command gets the network without a human only where the policy grants fetching.
  pub evaluate-network :
      (p : CommandPolicy) (argv : List String)
      → is_allowed (evaluate repr p argv) ≡ true
      → (evaluate repr p argv).network ≡ NetworkPolicy.egress_proxy
      → p.allow_network ≡ true
  unfolding evaluate evaluate_network
  evaluate-network p [] h n = ground arith
  evaluate-network p (command ∷ tokens) h n = ground arith
