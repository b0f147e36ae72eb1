-- ===== src/Approval/Timeout/Laws.antt =====
-- The cutoff, the whole scan, and what happens when two scans or a failing hook meet one row.
use wbme.Common.{
  if◌then◌else◌, ℕ, ◌+◌, ◌*◌, ◌≤◌, ◌<◌, ◌≡◌, refl, sym, ap, ◌∙◌, ◌↔◌, inl, inr, Bool, true, false,
  Option, none, some, List, [], ◌∷◌, pos, arith, Option-cases, count_if, update_where, Result, ok,
  err, ltb_pos-sub, ltb_pos-sub_of, ◌&&◌, sub_ℕ,
}
use wbme.Approval.Types.{ApprovalStatus, pending}
use wbme.Approval.Timeout.{
  Request, OverdueApprovalRow, Tables, Database, Schema, tables, is_overdue, is_hit, cancel_request,
  cancel_in_tables, Hook, Number, timeout_in_days, overdue_cutoff, day_ms, auto_cancel_overdue_row,
  commit, cancel, after_update, before, is_pending,
}
use wbme.Approval.Timeout.Update.{not_hit_after}
use mathlib.Core.Option.{some-injective}
use wbme.Approval.Timeout.Scan.{tables-set_tables}

overdue_parts :
    (now age : ℕ) (s : ApprovalStatus) (o : Option ℕ)
    → ((is_pending s && before o (sub_ℕ now age)) ≡ true)
      ↔ ((s ≡ pending) × ((t : ℕ) × (o ≡ some t) × (t + age < now)))
overdue_parts now age pending (some t) = (
  λ e. (refl, (t, refl, ltb_pos-sub t now age e)),
  λ h. ltb_pos-sub_of t now age (ground (arith, h.1.1, h.1.2)),
)
overdue_parts now age pending none = (λ e. cc, λ h. cc (h.1.1))
overdue_parts now age _ o = (λ e. cc, λ h. cc (h.0))

-- A request counts as overdue exactly if it is pending and was submitted more than the configured
-- number of days ago.
pub is_overdue_iff :
    (now : ℕ) (timeout_days : Number) (r : Request)
    → (is_overdue (overdue_cutoff now timeout_days) r ≡ true) ↔ (
        (r.status ≡ pending)
        × ((t : ℕ) × (r.submitted_at ≡ some t) × (t + timeout_in_days timeout_days * day_ms < now)))
unfolding is_overdue overdue_cutoff
is_overdue_iff now timeout_days r =
    overdue_parts now (timeout_in_days timeout_days * day_ms) r.status r.submitted_at

-- The number of days is at least one, whatever the setting holds, and 30 for a setting that is no
-- finite number.
pub timeout_in_days_pos : (timeout_days : Number) → 1 ≤ timeout_in_days timeout_days
unfolding timeout_in_days
timeout_in_days_pos timeout_days = ground arith

module _ {B E : Type 0} where
  -- In a client with transactions a row whose hook throws leaves no trace: the request stays
  -- pending, no action is logged, and the hook's own writes are undone.
  pub auto_cancel_overdue_row_rollback :
      (hook : Option (Hook B E)) (schema : Schema) (row : OverdueApprovalRow) (now : ℕ)
      (db db' : Database B) (e : E)
      → auto_cancel_overdue_row true hook schema row now db ≡ (db', err e)
      → db' ≡ db
  unfolding auto_cancel_overdue_row
  auto_cancel_overdue_row_rollback hook schema row now db db' e h =
      commit_err (cancel hook schema row now db) h
    where
      commit_err : (x : Database B × Result E Bool) → commit db x ≡ (db', err e) → db' ≡ db
      commit_err (d, ok b) k = cc
      commit_err (d, err f) k = cc

hits_after :
    (now : ℕ) (row : OverdueApprovalRow) (rs : List Request)
    → count_if (is_hit row) (update_where (is_hit row) (cancel_request now) rs) ≡ 0
hits_after now row [] = refl
hits_after now row (r ∷ rs) =
    ground (arith, not_hit_after (pos 0) now row row r, hits_after now row rs)

cancel_in_tables_twice :
    (row : OverdueApprovalRow) (now later : ℕ) (t u : Tables)
    → cancel_in_tables row now t ≡ some u
    → cancel_in_tables row later u ≡ none
unfolding cancel_in_tables
cancel_in_tables_twice row now later t u e = ground (arith, hits_after now row t.requests)

-- Cancelling a row a second time, as two scans that read it before either cancelled it do, reports
-- that nothing was cancelled and changes nothing.
pub auto_cancel_overdue_row_twice :
    {B E : Type 0} (transactional : Bool) (schema : Schema) (row : OverdueApprovalRow)
    (now later : ℕ) (db db' : Database B)
    → auto_cancel_overdue_row {E = E} transactional none schema row now db ≡ (db', ok true)
    → auto_cancel_overdue_row {E = E} transactional none schema row later db' ≡ (db', ok false)
unfolding auto_cancel_overdue_row
auto_cancel_overdue_row_twice {B} {E} transactional schema row now later db db' h =
    elim (Option-cases (cancel_in_tables row now (tables schema db))) [
      | inl e ↦ absurd (missed transactional (cancel_in_tables row now (tables schema db)) e h)
      | inr (t, e) ↦ lost transactional (
          cancel_in_tables_twice row now later (tables schema db) (tables schema db')
            (e ∙ ap some (kept transactional (cancel_in_tables row now (tables schema db)) t e h)))
    ]
  where
    missed :
        (b : Bool) (o : Option Tables)
        → o ≡ none
        → ¬ (
            ◌≡◌ {A = Database B × Result E Bool}
              (if b
                then commit db (after_update none schema row now db o)
                else after_update none schema row now db o)
              (db', ok true))
    missed true none e k = cc
    missed false none e k = cc
    missed b (some t) e k = cc

    kept :
        (b : Bool) (o : Option Tables) (t : Tables)
        → o ≡ some t
        → ◌≡◌ {A = Database B × Result E Bool}
            (if b
              then commit db (after_update none schema row now db o)
              else after_update none schema row now db o)
            (db', ok true)
        → t ≡ tables schema db'
    kept b none t e k = absurd (cc)
    kept true (some u) t e k =
        some-injective t u (sym e)
        ∙ sym (tables-set_tables schema u db)
        ∙ ap (λ r. tables schema r.0) k
    kept false (some u) t e k =
        some-injective t u (sym e)
        ∙ sym (tables-set_tables schema u db)
        ∙ ap (λ r. tables schema r.0) k

    lost :
        (b : Bool)
        → cancel_in_tables row later (tables schema db') ≡ none
        → ◌≡◌ {A = Database B × Result E Bool}
            (if b
              then commit db' (cancel none schema row later db')
              else cancel none schema row later db')
            (db', ok false)
    lost true e = ap (λ o. commit db' (after_update none schema row later db' o)) e
    lost false e = ap (after_update none schema row later db') e
