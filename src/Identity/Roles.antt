-- ===== src/Identity/Roles.antt =====
-- backend/src/spidey/identity/domain/models.py: the roles of access control.
use spidey.Base.{ℕ, String, Bool, leb}

pub data Role : Type 0 where
  admin developer viewer : Role

abbrev pub role_value : Role → String
role_value Role.admin = "admin"
role_value Role.developer = "developer"
role_value Role.viewer = "viewer"

abbrev pub rank : Role → ℕ
rank Role.viewer = 1
rank Role.developer = 2
rank Role.admin = 3

unfoldable pub satisfies : Role → Role → Bool
satisfies held required = leb (rank required) (rank held)
