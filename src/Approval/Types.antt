-- ===== src/Approval/Types.antt =====
-- packages/approval/src/types.ts, the enumerations of packages/contracts/src/enums/common.ts that it
-- uses, and the error codes that the engine throws (their payloads are left out).
use wbme.Common.{Bool, Option}

pub data ApprovalStatus : Type 0 where
  draft pending approved rejected cancelled : ApprovalStatus

pub data ApprovalAction : Type 0 where
  submit cancel approve reject auto_cancel : ApprovalAction

pub data CancelSource : Type 0 where
  user account_deactivated overdue : CancelSource

pub data ProcessAction : Type 0 where
  approve reject cancel auto_cancel : ProcessAction

pub record ResolvedTransition : Type 0 where
  pub status : ApprovalStatus
  pub action : ApprovalAction
  pub cancel_source : Option CancelSource
  pub requires_opinion : Bool

pub data ApprovalError : Type 0 where
  status_not_allowed reject_reason_required status_conflict scope_not_covered : ApprovalError
  pending_limit_reached : ApprovalError
