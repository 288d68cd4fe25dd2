-- ===== src/Session/Dispatch/Owners.antt =====
-- internal/session/manager_v1_rest.go: who can hand a space over.
use meshserver.Base.{Bool, false}
use meshserver.Base.Text.{Text}
use meshserver.Base.Exec.{Result, ok, err, Exec}
use meshserver.Model.Enums.{Role, is_owner}
use meshserver.Model.Database.{Database}

-- What the look-up of a role says of the owner; a user without a role is not it.
abbrev pub owns : Result Role → Bool
owns (ok role) = is_owner role
owns (err e) = false
