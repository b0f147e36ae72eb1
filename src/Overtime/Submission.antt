-- ===== src/Overtime/Submission.antt =====
-- apps/hr/src/modules/overtime/overtime-submission.service.ts and overtime-date-window.ts: a batch of
-- overtime is submitted. A date is the number of a day.
pub mod Laws
use wbme.Common.{
  ℕ, ◌+◌, ◌-◌, ◌*◌, Bool, true, false, not, ◌&&◌, ◌||◌, ◌==◌, leb, List, [], ◌∷◌, ◌++◌, Option,
  none, some, map, keep_if, any, all, String, Result, ok, err, ◌>>=◌, if◌then◌else◌,
}
use wbme.Approval.Types.{ApprovalStatus, pending, approved}
use wbme.Approval.Scope.{DataScope}
use wbme.Overtime.Overlap.{Interval, find_overlapping}

pub record OvertimeSubmitDto : Type 0 where
  pub overtime_date : ℕ
  pub start_minute : ℕ
  pub end_minute : ℕ
  pub user_ids : List ℕ

-- A row of hr.overtime_items with the status of its request. The reason and the names, departments
-- and positions that a row copies are left out.
pub record OvertimeItem : Type 0 where
  pub request_id : ℕ
  pub user_id : ℕ
  pub overtime_date : ℕ
  pub start_minute : ℕ
  pub end_minute : ℕ
  pub date_type : String
  pub is_backfill : Bool
  pub status : ApprovalStatus

pub data FailureCode : Type 0 where
  employee_not_active scope_not_covered overlap : FailureCode

pub record OvertimeBatchFailure : Type 0 where
  pub user_id : ℕ
  pub code : FailureCode

pub data OvertimeError : Type 0 where
  resource_not_found validation_failed out_of_window holiday_unavailable : OvertimeError
  batch_rejected : List OvertimeBatchFailure → OvertimeError
  overtime_overlap : ℕ → OvertimeError

-- What `getFunctionAccess` finds; no data scope is that of the super administrator.
pub record FunctionAccess : Type 0 where
  pub registered : Bool
  pub system_open : Bool
  pub allowed : Bool
  pub data_scope : Option DataScope

-- What a submission reads: the calendar (`beijing_date` takes milliseconds), the accounts (whether
-- one is ACTIVE), the departments, the settings, the holidays and the id of the new request's head.
pub record Surroundings : Type 0 where
  pub beijing_date : ℕ → ℕ
  pub now : ℕ
  pub advance_days : ℕ
  pub backfill_days : ℕ
  pub apply_access : FunctionAccess
  pub proxy_access : FunctionAccess
  pub is_active : ℕ → Option Bool
  pub own_departments : ℕ → List ℕ
  pub closure_of_user : ℕ → List ℕ
  pub holiday : ℕ → Option String
  pub head_id : ℕ

pub record WindowRange : Type 0 where
  pub min_date : ℕ
  pub max_date : ℕ

unfoldable pub window_range : Surroundings → WindowRange
window_range s = record {
  min_date = s.beijing_date (s.now - s.backfill_days * 86400000);
  max_date = s.beijing_date (s.now + s.advance_days * 86400000);
}

unfoldable pub is_within_window : ℕ → WindowRange → Bool
is_within_window date range = leb range.min_date date && leb date range.max_date

-- `[...new Set(ids)]`.
unfoldable pub distinct : List ℕ → List ℕ
distinct [] = []
distinct (n ∷ ns) = n ∷ keep_if (λ m. not (m == n)) (distinct ns)

abbrev pub has_access : FunctionAccess → Bool
has_access a = a.registered && a.system_open && a.allowed

abbrev pub is_self : Option DataScope → Bool
is_self (some DataScope.self) = true
is_self _ = false

abbrev pub is_department : Option DataScope → Bool
is_department (some DataScope.department) = true
is_department _ = false

abbrev pub can_proxy : Surroundings → Bool
can_proxy s = has_access s.proxy_access && not (is_self s.proxy_access.data_scope)

unfoldable pub user_ids_of : Bool → ℕ → List ℕ → Result OvertimeError (List ℕ)
unfolding distinct
user_ids_of true operator ids = ok (distinct ids)
user_ids_of false operator [] = err validation_failed
user_ids_of false operator (n ∷ []) = if n == operator then ok (n ∷ []) else err validation_failed
user_ids_of false operator (n ∷ m ∷ ns) = err validation_failed

-- The status of a request whose items count.
abbrev pub is_live : ApprovalStatus → Bool
is_live pending = true
is_live approved = true
is_live _ = false

abbrev pub interval_of : OvertimeItem → Interval
interval_of i = record { start_minute = i.start_minute; end_minute = i.end_minute }

abbrev pub is_empty : List Interval → Bool
is_empty [] = true
is_empty (x ∷ xs) = false

unfoldable pub find_existing_overlaps : ℕ → OvertimeSubmitDto → List OvertimeItem → Bool
unfolding find_overlapping
find_existing_overlaps user dto items =
    let existing =
      keep_if (λ i. i.user_id == user && i.overtime_date == dto.overtime_date && is_live i.status)
        items in
    not (is_empty (find_overlapping dto.start_minute dto.end_minute (map interval_of existing)))

abbrev failure : Bool → ℕ → FailureCode → List OvertimeBatchFailure
failure true user code = record { user_id = user; code = code } ∷ []
failure false user code = []

-- The body of the loop of `validateBatch` behind the test on the operator.
unfoldable pub validate_other :
    Surroundings
    → (operator : ℕ) → OvertimeSubmitDto
    → List OvertimeItem
    → ℕ
    → List OvertimeBatchFailure
unfolding find_existing_overlaps
validate_other s operator dto items user = elim (s.is_active user) [
  | some true ↦
      failure
        (can_proxy s
          && is_department s.proxy_access.data_scope
          && not
              (all (λ d. any (λ c. c == d) (s.closure_of_user operator)) (s.own_departments user)))
        user scope_not_covered
      ++ failure (find_existing_overlaps user dto items) user overlap
  | _ ↦ record { user_id = user; code = employee_not_active } ∷ []
]

unfoldable pub validate_batch :
    Surroundings
    → (operator : ℕ) → OvertimeSubmitDto
    → List OvertimeItem
    → List ℕ
    → List OvertimeBatchFailure
unfolding validate_other
validate_batch s operator dto items [] = []
validate_batch s operator dto items (user ∷ users) =
    let rest = validate_batch s operator dto items users in
    if user == operator then rest else validate_other s operator dto items user ++ rest

-- The rows that the transaction locks.
abbrev pub locked_rows : OvertimeSubmitDto → List OvertimeItem → List OvertimeItem
locked_rows dto items =
    keep_if
      (λ i.
        any (λ u. u == i.user_id) dto.user_ids
        && i.overtime_date == dto.overtime_date
        && is_live i.status)
      items

abbrev pub existing_of : OvertimeSubmitDto → List OvertimeItem → ℕ → List Interval
existing_of dto items user =
    map interval_of (keep_if (λ i. i.user_id == user) (locked_rows dto items))

unfoldable pub assert_no_overlap :
    OvertimeSubmitDto → List OvertimeItem → List ℕ → Result OvertimeError (Unit {0})
unfolding find_overlapping
assert_no_overlap dto items [] = ok tt
assert_no_overlap dto items (user ∷ users) =
    let rest = assert_no_overlap dto items users in
    if is_empty (find_overlapping dto.start_minute dto.end_minute (existing_of dto items user))
    then rest
    else err (overtime_overlap user)

abbrev pub new_item : Surroundings → OvertimeSubmitDto → String → ℕ → OvertimeItem
new_item s dto date_type user = record {
  request_id = s.head_id;
  user_id = user;
  overtime_date = dto.overtime_date;
  start_minute = dto.start_minute;
  end_minute = dto.end_minute;
  date_type = date_type;
  is_backfill = not (leb (s.beijing_date s.now) dto.overtime_date);
  status = pending;
}

abbrev pub insert_items :
    Surroundings → OvertimeSubmitDto → String → List ℕ → List OvertimeItem → List OvertimeItem
insert_items s dto date_type [] items = items
insert_items s dto date_type (user ∷ users) items =
    new_item s dto date_type user ∷ insert_items s dto date_type users items

abbrev pub guard : Bool → OvertimeError → Result OvertimeError (Unit {0})
guard true e = ok tt
guard false e = err e

abbrev pub reject_failures : List OvertimeBatchFailure → Result OvertimeError (Unit {0})
reject_failures [] = ok tt
reject_failures (f ∷ fs) = err (batch_rejected (f ∷ fs))

abbrev pub resolve : Option String → Result OvertimeError String
resolve none = err holiday_unavailable
resolve (some t) = ok t

abbrev pub create_items :
    Surroundings
    → OvertimeSubmitDto
    → List OvertimeItem
    → List ℕ
    → String
    → Result OvertimeError (List OvertimeItem)
create_items s dto items users date_type = do
  o ← assert_no_overlap dto items dto.user_ids
  ok (insert_items s dto date_type users items)

abbrev pub with_date_type :
    Surroundings
    → OvertimeSubmitDto
    → List OvertimeItem
    → List ℕ
    → Result OvertimeError (List OvertimeItem)
with_date_type s dto items users = do
  date_type ← resolve (s.holiday dto.overtime_date)
  create_items s dto items users date_type

abbrev pub with_valid_users :
    Surroundings
    → ℕ
    → OvertimeSubmitDto
    → (before items : List OvertimeItem) → List ℕ
    → Result OvertimeError (List OvertimeItem)
with_valid_users s operator dto before items users = do
  f ← reject_failures (validate_batch s operator dto before users)
  with_date_type s dto items users

abbrev pub in_window :
    Surroundings
    → ℕ
    → OvertimeSubmitDto
    → (before items : List OvertimeItem) → List ℕ
    → Result OvertimeError (List OvertimeItem)
in_window s operator dto before items users = do
  w ← guard (is_within_window dto.overtime_date (window_range s)) out_of_window
  with_valid_users s operator dto before items users

abbrev pub with_access :
    Surroundings
    → ℕ
    → OvertimeSubmitDto
    → (before items : List OvertimeItem) → Result OvertimeError (List OvertimeItem)
with_access s operator dto before items = do
  users ← user_ids_of (can_proxy s) operator dto.user_ids
  in_window s operator dto before items users

-- The first run with an idempotency key. `before` are the items that the checks ahead of the
-- transaction read, `items` those in it.
unfoldable pub submit :
    Surroundings
    → (operator : ℕ) → OvertimeSubmitDto
    → (before items : List OvertimeItem) → Result OvertimeError (List OvertimeItem)
unfolding user_ids_of validate_batch assert_no_overlap is_within_window window_range
submit s operator dto before items = do
  g ← guard (has_access s.apply_access || has_access s.proxy_access) resource_not_found
  with_access s operator dto before items
