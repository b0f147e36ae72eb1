-- ===== src/Approval/Tests.antt =====
-- The approval theorems at concrete requests, approvers and tables.
use wbme.Common.{
  ℕ, false, Option, none, some, List, [], ◌∷◌, String, Result, ok, err, ◌≡◌, ◌≤◌, ◌↔◌, refl,
  count_if, min, pos,
}
use wbme.Approval.Types.{
  draft, pending, approved, cancelled, ApprovalAction, user, ResolvedTransition,
}
use wbme.Approval.StateMachine.{assert_transition_allowed}
use wbme.Approval.StateMachine.Walks.{Walk, here, next, walk_bound}
use wbme.Approval.Scope.{
  DataScope, to_approver_scope, resolve_object_department_ids, assert_scope_covers_all,
}
use wbme.Approval.Scope.Laws.{IsOpen, Covered, assert_scope_covers_all_iff}
use wbme.Approval.PendingLimit.{Thrown, object, columns}
use wbme.Approval.Timeout.{
  Number, finite, Request, OverdueApprovalRow, Tables, Database, Hook, is_overdue, overdue_cutoff,
  timeout_in_days, cancel_request, auto_cancel_entry,
}
use wbme.Approval.Timeout.Laws.{timeout_in_days_pos}

abbrev cancelled_by_user : ResolvedTransition
cancelled_by_user = record {
  status = cancelled;
  action = ApprovalAction.cancel;
  cancel_source = some user;
  requires_opinion = false;
}

abbrev blank : List ℕ
blank = b' ' ∷ b' ' ∷ []

abbrev submitted_and_approved : Walk 2 draft approved
unfolding assert_transition_allowed
submitted_and_approved = next {t = pending} (next {t = draft} here refl) refl

walk_bound_example : 2 ≤ 2
walk_bound_example = walk_bound 2 draft approved submitted_and_approved

abbrev closure : List ℕ
closure = 3 ∷ 4 ∷ []

abbrev no_objects : Option (List (Option ℕ))
no_objects = none

assert_scope_covers_all_iff_example :
    (assert_scope_covers_all
        (to_approver_scope (some DataScope.department) closure)
        (resolve_object_department_ids (some (some 4 ∷ none ∷ [])) (some 4))
        (some "BORROW")
      ≡ ok tt)
    ↔ (IsOpen (some "BORROW") × Covered closure (some 4 ∷ none ∷ []) (some 4))
assert_scope_covers_all_iff_example =
    assert_scope_covers_all_iff closure (some (some 4 ∷ none ∷ [])) (some 4) (some "BORROW")

abbrev conflict : Result Thrown (Unit {0})
conflict = err (object (some "P2002") (columns ("applicant_id" ∷ [])))

abbrev request : ℕ → Option ℕ → Request
request id submitted = record {
  id = id;
  version = 1;
  request_type = "LEAVE";
  status = pending;
  submitted_at = submitted;
  cancelled_at = none;
  cancel_source = none;
  updated_at = 5;
}

abbrev one_day : Number
one_day = finite (pos 1) 0

abbrev now : ℕ
now = 100000000

timeout_in_days_pos_example : 1 ≤ timeout_in_days one_day
timeout_in_days_pos_example = timeout_in_days_pos one_day

abbrev empty : Tables
empty = record { requests = []; actions = [] }

abbrev leave : Tables
leave = record { requests = request 1 (some 10) ∷ request 2 (some 99000000) ∷ []; actions = [] }

abbrev database : Database ℕ
database = record {
  backstage_tables = empty;
  hr_tables = leave;
  asset_tables = empty;
  business = 7;
}

abbrev row : OverdueApprovalRow
row = record { id = 1; version = 1; request_type = "LEAVE" }

abbrev failing_hook : Hook ℕ String
failing_hook schema r t db = (record db { business = 0 }, err "no balance")

abbrev leave_after : Tables
leave_after = record {
  requests = cancel_request now (request 1 (some 10)) ∷ request 2 (some 99000000) ∷ [];
  actions = auto_cancel_entry row now ∷ [];
}

abbrev database_after : Database ℕ
database_after = record database { hr_tables = leave_after }

abbrev due : Tables → ℕ
due t = min 200 (count_if (is_overdue (overdue_cutoff now one_day)) t.requests)
