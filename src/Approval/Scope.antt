-- ===== src/Approval/Scope.antt =====
-- packages/approval/src/scope.ts: which requests an approver's data scope covers. A set of department
-- ids is a list, a missing and a null id are both `none`; ids are natural numbers.
pub mod Laws
use wbme.Common.{
  ℕ, Bool, true, false, Option, none, some, List, [], ◌∷◌, String, Result, ok, err, if◌then◌else◌,
  ◌&&◌, ◌||◌, ◌==◌, not, any, map, str_eq, Json, object, array, number, null, get, values_of,
}
use wbme.Approval.Types.{ApprovalError, scope_not_covered}

pub data DataScope : Type 0 where
  self department company : DataScope

pub data ApproverScope : Type 0 where
  company : ApproverScope
  department : List ℕ → ApproverScope

abbrev asset_company_only_request_types : List String
asset_company_only_request_types = "STOCK_IN" ∷ "STOCK_CHANGE" ∷ []

-- `Set.prototype.has`.
unfoldable pub has : List ℕ → ℕ → Bool
has ids n = any (λ m. m == n) ids

unfoldable pub to_approver_scope : Option DataScope → List ℕ → ApproverScope
to_approver_scope none ids = ApproverScope.company
to_approver_scope (some DataScope.company) ids = ApproverScope.company
to_approver_scope (some _) ids = ApproverScope.department ids

unfoldable pub is_company_only_request_type : String → Bool
is_company_only_request_type request_type =
    any (λ t. str_eq t request_type) asset_company_only_request_types

-- `objects !== undefined && objects.length > 0`; an object is its department id.
unfoldable pub resolve_object_department_ids : Option (List (Option ℕ)) → Option ℕ → List (Option ℕ)
resolve_object_department_ids none applicant = applicant ∷ []
resolve_object_department_ids (some []) applicant = applicant ∷ []
resolve_object_department_ids (some (o ∷ os)) applicant = o ∷ os

-- The loop of `scopeCoversAll`.
covers_each : List ℕ → List (Option ℕ) → Bool
covers_each ids [] = true
covers_each ids (none ∷ os) = false
covers_each ids (some d ∷ os) = if not (has ids d) then false else covers_each ids os

abbrev covers : ApproverScope → List (Option ℕ) → Bool
covers ApproverScope.company os = true
covers (ApproverScope.department ids) [] = false
covers (ApproverScope.department ids) (o ∷ os) = covers_each ids (o ∷ os)

abbrev is_company : ApproverScope → Bool
is_company ApproverScope.company = true
is_company (ApproverScope.department ids) = false

abbrev pub company_only : Option String → Bool
company_only none = false
company_only (some t) = is_company_only_request_type t

unfoldable pub scope_covers_all : ApproverScope → List (Option ℕ) → Option String → Bool
unfolding covers_each has
scope_covers_all scope os request_type =
    if company_only request_type && not (is_company scope) then false else covers scope os

unfoldable pub assert_scope_covers_all :
    ApproverScope → List (Option ℕ) → Option String → Result ApprovalError (Unit {0})
assert_scope_covers_all scope os request_type =
    if not (scope_covers_all scope os request_type) then err scope_not_covered else ok tt

-- `a ?? b`
abbrev coalesce : Json → Json → Json
coalesce null b = b
coalesce a b = a

abbrev finite_number : Json → Option ℕ
finite_number (number n) = some n
finite_number _ = none

-- An array is an object too, with neither key.
unfoldable pub extract_department_id_from_snapshot : Json → Option ℕ
unfolding get
extract_department_id_from_snapshot (number n) = some n
extract_department_id_from_snapshot (object members) =
    finite_number (coalesce (get "id" members) (get "departmentId" members))
extract_department_id_from_snapshot _ = none

-- `Array.isArray(snapshot) ? snapshot : [snapshot]`
abbrev snapshot_list : Json → List Json
snapshot_list (array values) = values_of values
snapshot_list v = v ∷ []

unfoldable pub extract_department_ids_from_snapshot : Json → List (Option ℕ)
unfolding extract_department_id_from_snapshot
extract_department_ids_from_snapshot snapshot =
    map extract_department_id_from_snapshot (snapshot_list snapshot)
