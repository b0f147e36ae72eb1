-- ===== src/Approval/StateMachine.antt =====
-- packages/approval/src/state-machine.ts: the life of an approval request. A text is the list of its
-- UTF-16 code units; a missing and a null opinion are both `none`.
pub mod Laws
pub mod Walks
use wbme.Common.{
  ℕ, Bool, true, false, Option, none, some, List, [], ◌∷◌, Result, ok, err, if◌then◌else◌, ◌&&◌,
  ◌||◌, ◌==◌, length, trim, not, is_space,
}
use wbme.Approval.Types.{
  ApprovalStatus, draft, pending, approved, rejected, cancelled, ApprovalAction, CancelSource, user,
  account_deactivated, overdue, ProcessAction, ResolvedTransition, ApprovalError,
  status_not_allowed, reject_reason_required, status_conflict,
}

-- `===` on statuses.
abbrev same_status : ApprovalStatus → ApprovalStatus → Bool
same_status draft draft = true
same_status pending pending = true
same_status approved approved = true
same_status rejected rejected = true
same_status cancelled cancelled = true
same_status _ _ = false

abbrev pub terminal_approval_statuses : List ApprovalStatus
terminal_approval_statuses = approved ∷ rejected ∷ cancelled ∷ []

includes : ApprovalStatus → List ApprovalStatus → Bool
includes s [] = false
includes s (t ∷ ts) = same_status s t || includes s ts

unfoldable pub is_terminal_approval_status : ApprovalStatus → Bool
unfolding includes
is_terminal_approval_status status = includes status terminal_approval_statuses

unfoldable pub assert_transition_allowed :
    ApprovalStatus → ApprovalStatus → Result ApprovalError (Unit {0})
assert_transition_allowed from to =
    let allowed =
      (same_status from draft && same_status to pending)
      || (same_status from pending
          && (same_status to approved || same_status to rejected || same_status to cancelled)) in
    if allowed then ok tt else err status_not_allowed

-- `cancelSource === 'ACCOUNT_DEACTIVATED' ? 'ACCOUNT_DEACTIVATED' : 'USER'`
abbrev cancel_source_of : Option CancelSource → CancelSource
cancel_source_of (some account_deactivated) = account_deactivated
cancel_source_of _ = user

abbrev cancelled_by : ApprovalAction → CancelSource → ResolvedTransition
cancelled_by action source = record {
  status = cancelled;
  action = action;
  cancel_source = some source;
  requires_opinion = false;
}

abbrev auto_cancel_transition : Option CancelSource → Result ApprovalError ResolvedTransition
auto_cancel_transition (some overdue) = ok (cancelled_by ApprovalAction.auto_cancel overdue)
auto_cancel_transition (some account_deactivated) =
    ok (cancelled_by ApprovalAction.auto_cancel account_deactivated)
auto_cancel_transition _ = err status_not_allowed

-- The `default` case of the switch cannot be reached by a value of the type.
unfoldable pub resolve_process_transition :
    ProcessAction → Option CancelSource → Result ApprovalError ResolvedTransition
resolve_process_transition ProcessAction.approve source = ok (record {
  status = approved;
  action = ApprovalAction.approve;
  cancel_source = none;
  requires_opinion = false;
})
resolve_process_transition ProcessAction.reject source = ok (record {
  status = rejected;
  action = ApprovalAction.reject;
  cancel_source = none;
  requires_opinion = true;
})
resolve_process_transition ProcessAction.cancel source =
    ok (cancelled_by ApprovalAction.cancel (cancel_source_of source))
resolve_process_transition ProcessAction.auto_cancel source = auto_cancel_transition source

-- `opinion === undefined || opinion === null || opinion.trim().length === 0`
is_missing : Option (List ℕ) → Bool
is_missing none = true
is_missing (some opinion) = length (trim opinion) == 0

unfoldable pub assert_opinion_if_required : Bool → Option (List ℕ) → Result ApprovalError (Unit {0})
unfolding is_missing
assert_opinion_if_required requires_opinion opinion =
    if not requires_opinion
    then ok tt
    else if is_missing opinion
    then err reject_reason_required
    else ok tt

unfoldable pub throw_if_transition_lost : ℕ → Result ApprovalError (Unit {0})
throw_if_transition_lost updated_count = if updated_count == 0 then err status_conflict else ok tt

unfoldable pub assert_pending : ApprovalStatus → Result ApprovalError (Unit {0})
assert_pending status = if not (same_status status pending) then err status_not_allowed else ok tt
