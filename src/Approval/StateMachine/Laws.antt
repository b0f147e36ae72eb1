-- ===== src/Approval/StateMachine/Laws.antt =====
-- What resolving a processing intent yields, and when an opinion is accepted.
use wbme.Common.{
  ℕ, ◌≡◌, refl, ◌↔◌, ◌≢◌, ◌⊎◌, inl, inr, Bool, true, false, Option, none, some, List, ok, err,
  arith, All, is_space, length-trim-eq-zero_iff,
}
use wbme.Approval.Types.{
  pending, rejected, cancelled, CancelSource, account_deactivated, overdue, ProcessAction,
  ResolvedTransition, ApprovalError, status_not_allowed, reject_reason_required,
}
use wbme.Approval.StateMachine.{
  is_terminal_approval_status, assert_transition_allowed, resolve_process_transition,
  assert_opinion_if_required,
}

-- What a resolved transition must be, whichever intent it came from.
pub record IsSound (r : ResolvedTransition) : Type 0 where
  pub allowed : assert_transition_allowed pending r.status ≡ ok tt
  pub final : is_terminal_approval_status r.status ≡ true
  pub source : (r.cancel_source ≡ none) ↔ (r.status ≢ cancelled)
  pub opinion : (r.requires_opinion ≡ true) ↔ (r.status ≡ rejected)

-- Every transition that `resolve_process_transition` returns is allowed from PENDING and ends in a
-- terminal status; it has a cancel source exactly if that status is CANCELLED, and demands an
-- opinion exactly if it is REJECTED.
pub resolve_process_transition-IsSound :
    (action : ProcessAction) (source : Option CancelSource) (r : ResolvedTransition)
    → resolve_process_transition action source ≡ ok r
    → IsSound r
unfolding resolve_process_transition is_terminal_approval_status assert_transition_allowed
resolve_process_transition-IsSound action source r e = record {
  allowed = ground arith;
  final = ground arith;
  source = (ground arith, ground arith);
  opinion = (ground arith, ground arith);
}

-- Resolving fails exactly for AUTO_CANCEL with a source other than OVERDUE and ACCOUNT_DEACTIVATED,
-- and then with STATUS_NOT_ALLOWED.
pub resolve_process_transition-eq-err_iff :
    (action : ProcessAction) (source : Option CancelSource) (e : ApprovalError)
    → (resolve_process_transition action source ≡ err e) ↔ (
        (e ≡ status_not_allowed)
        × (action ≡ ProcessAction.auto_cancel)
        × (source ≢ some overdue)
        × (source ≢ some account_deactivated))
unfolding resolve_process_transition
resolve_process_transition-eq-err_iff action source e = (ground arith, ground arith)

-- A required opinion is refused exactly if it is missing or consists of white space; an opinion that
-- is not required is never refused.
pub assert_opinion_if_required_iff :
    (required : Bool) (opinion : Option (List ℕ))
    → (assert_opinion_if_required required opinion ≡ err reject_reason_required) ↔ (
        (required ≡ true)
        × ((opinion ≡ none) ⊎ ((s : List ℕ) × (opinion ≡ some s) × All (λ c. is_space c ≡ true) s)))
unfolding assert_opinion_if_required
assert_opinion_if_required_iff false opinion = (ground arith, ground arith)
assert_opinion_if_required_iff true none = (λ _. (refl, inl refl), λ _. refl)
assert_opinion_if_required_iff true (some s) = (
  λ e. (refl, inr (s, refl, (length-trim-eq-zero_iff s).0 (ground arith))),
  λ h. elim h.1 [
    | inl e ↦ cc
    | inr (t, e, spaces) ↦ ground (arith, (length-trim-eq-zero_iff t).1 spaces)
  ],
)
