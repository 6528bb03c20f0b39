-- ===== src/Checks/Policy.antt =====
-- backend/src/spidey/execution/domain/policy.py on single commands.
use spidey.Base.{String, true, false, ◌≡◌, refl, [], ◌∷◌, str_strip}
use spidey.Execution.Policy.{
  CommandPolicy, Admission, allowed_commands, is_allowed, has_metachar, evaluate,
}
use spidey.Execution.Policy

abbrev same : String → String
same s = s

abbrev strict : CommandPolicy
strict = record { allowed_names = allowed_commands; allow_network = false }

abbrev online : CommandPolicy
online = record { allowed_names = allowed_commands; allow_network = true }

smuggled : (evaluate same strict ("ls;rm" ∷ [])).admission ≡ Admission.denied
unfolding evaluate has_metachar str_strip
smuggled = refl
