-- ===== src/Approval/StateMachine/Walks.antt =====
-- Sequences of allowed transitions.
use wbme.Common.{ℕ, zero, suc, ◌+◌, ◌≤◌, ◌≡◌, refl, ◌↔◌, ok, arith, true}
use wbme.Approval.Types.{ApprovalStatus, draft, pending, approved, rejected, cancelled}
use wbme.Approval.StateMachine.{is_terminal_approval_status, assert_transition_allowed}

-- The transitions of the product's rules, stated apart from the code's test.
pub data Step : ApprovalStatus → ApprovalStatus → Type 0 where
  submits : Step draft pending
  approves : Step pending approved
  rejects : Step pending rejected
  cancels : Step pending cancelled

-- `assert_transition_allowed` accepts exactly the four transitions of the product's rules.
pub assert_transition_allowed_iff :
    (from to : ApprovalStatus) → (assert_transition_allowed from to ≡ ok tt) ↔ Step from to
unfolding assert_transition_allowed
assert_transition_allowed_iff from to = (accepted from to, λ s. taken s)
  where
    accepted : (f t : ApprovalStatus) → assert_transition_allowed f t ≡ ok tt → Step f t
    accepted draft pending e = submits
    accepted pending approved e = approves
    accepted pending rejected e = rejects
    accepted pending cancelled e = cancels
    accepted _ _ e = absurd (cc)

    taken : {f t : ApprovalStatus} → Step f t → assert_transition_allowed f t ≡ ok tt
    taken submits = refl
    taken approves = refl
    taken rejects = refl
    taken cancels = refl

-- `n` transitions in a row, each accepted by the code.
pub data Walk : ℕ → ApprovalStatus → ApprovalStatus → Type 0 where
  here : {s : ApprovalStatus} → Walk zero s s
  next :
      {n : ℕ} {s t u : ApprovalStatus}
      → Walk n s t
      → assert_transition_allowed t u ≡ ok tt
      → Walk (suc n) s u

abbrev rank : ApprovalStatus → ℕ
rank draft = 0
rank pending = 1
rank _ = 2

rank-step : (s t : ApprovalStatus) → assert_transition_allowed s t ≡ ok tt → rank t ≡ rank s + 1
unfolding assert_transition_allowed
rank-step s t e = ground arith

rank-walk : {n : ℕ} {s t : ApprovalStatus} → Walk n s t → rank t ≡ rank s + n
rank-walk here = omega arith
rank-walk (next {t = t} {u = u} w e) = omega (arith, rank-walk w, rank-step t u e)

rank-le : (s : ApprovalStatus) → rank s ≤ 2
rank-le s = ground arith

rank_of_terminal : (s : ApprovalStatus) → is_terminal_approval_status s ≡ true → rank s ≡ 2
unfolding is_terminal_approval_status
rank_of_terminal s e = ground arith

-- A request makes at most two transitions in its life.
pub walk_bound : (n : ℕ) (s t : ApprovalStatus) → Walk n s t → n ≤ 2
walk_bound n s t w = omega (arith, rank-walk w, rank-le t)

walk_zero : {n : ℕ} {s t : ApprovalStatus} → Walk n s t → n ≡ 0 → s ≡ t
walk_zero here e = refl
walk_zero (next w h) e = absurd (omega arith)

-- A terminal status is final: no transition leads out of it.
pub walk_of_terminal :
    (n : ℕ) (s t : ApprovalStatus)
    → is_terminal_approval_status s ≡ true
    → Walk n s t
    → (n ≡ 0) × (s ≡ t)
walk_of_terminal n s t e w = (none_left, walk_zero w none_left)
  where
    none_left : n ≡ 0
    none_left = omega (arith, rank-walk w, rank-le t, rank_of_terminal s e)
