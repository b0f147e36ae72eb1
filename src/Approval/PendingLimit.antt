-- ===== src/Approval/PendingLimit.antt =====
-- packages/approval/src/pending-limit.ts: a unique-index conflict becomes PENDING_LIMIT_REACHED. A
-- thrown value is a business exception, or another value with its `code` and the columns of its
-- `meta.target` (one for a string, none for a target of another shape).
pub mod Laws
use wbme.Common.{
  Bool, Option, none, some, List, [], ◌∷◌, String, Result, ok, err, if◌then◌else◌, ◌&&◌, not, any,
  str_eq, false,
}
use wbme.Approval.Types.{ApprovalError, pending_limit_reached}

pub data Target : Type 0 where
  columns : List String → Target
  column : String → Target
  other : Target

pub data Thrown : Type 0 where
  business : ApprovalError → Thrown
  object : (code : Option String) (target : Target) → Thrown
  primitive : Thrown

-- `typeof error === 'object' && error !== null && error.code === 'P2002'`; a business exception's
-- code is never `P2002`.
unfoldable pub is_prisma_unique_violation : Thrown → Bool
is_prisma_unique_violation (object (some code) target) = str_eq code "P2002"
is_prisma_unique_violation _ = false

abbrev pub target_columns : Target → List String
target_columns (columns cs) = cs
target_columns (column c) = c ∷ []
target_columns other = []

unfoldable pub unique_target_columns : Thrown → List String
unique_target_columns (object code target) = target_columns target
unique_target_columns _ = []

-- What is thrown in the end.
abbrev map_other : Thrown → Thrown
map_other error =
    if is_prisma_unique_violation error
      && not (any (λ c. str_eq c "application_no") (unique_target_columns error))
    then business pending_limit_reached
    else error

unfoldable pub map_pending_limit_error : Thrown → Thrown
unfolding is_prisma_unique_violation unique_target_columns
map_pending_limit_error (business e) = business e
map_pending_limit_error error = map_other error

unfoldable pub with_pending_limit_mapping {ℓ} : {T : Type ℓ} → Result Thrown T → Result Thrown T
with_pending_limit_mapping (ok result) = ok result
with_pending_limit_mapping (err error) = err (map_pending_limit_error error)
