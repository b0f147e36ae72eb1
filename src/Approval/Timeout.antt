-- ===== src/Approval/Timeout.antt =====
-- packages/approval/src/timeout.ts: the nightly scan that cancels overdue requests. Times are
-- milliseconds since 1970; stored times are natural numbers, a cutoff may lie before 1970. The
-- database holds, for each schema, the requests and the action log; `business` is whatever else a
-- hook works on. A hook is a parameter, as are its errors.
pub mod Update
pub mod Scan
pub mod Laws
use wbme.Common.{
  ℕ, ◌+◌, ◌*◌, Bool, true, false, Option, none, some, List, [], ◌∷◌, map, ◌++◌, String, Result, ok,
  err, if◌then◌else◌, ◌&&◌, ◌==◌, ltb, leb, ℤ, pos, negsuc, sub_ℕ, ltb_pos, keep_if, order_by, take,
  update_where, count_if,
}
use wbme.Approval.Types.{
  ApprovalStatus, draft, pending, approved, rejected, cancelled, ApprovalAction, CancelSource,
  overdue,
}

-- A JS number as far as the code looks at it: not finite, or its floor and a fraction below one.
pub data Number : Type 0 where
  not_finite : Number
  finite : (floor : ℤ) (fraction : ℕ) → Number

abbrev pub approval_timeout_batch_size : ℕ
approval_timeout_batch_size = 200

abbrev pub day_ms : ℕ
day_ms = 24 * 60 * 60 * 1000

-- `Number.isFinite(timeoutDays) && timeoutDays >= 1 ? Math.floor(timeoutDays) : 30`
unfoldable pub timeout_in_days : Number → ℕ
timeout_in_days not_finite = 30
timeout_in_days (finite (negsuc n) fraction) = 30
timeout_in_days (finite (pos n) fraction) = if leb 1 n then n else 30

-- Times are unbounded; the source throws a RangeError for a time that no Date can hold.
unfoldable pub overdue_cutoff : ℕ → Number → ℤ
overdue_cutoff now timeout_days = sub_ℕ now (timeout_in_days timeout_days * day_ms)

pub data Schema : Type 0 where
  backstage hr asset : Schema

abbrev approval_schemas : List Schema
approval_schemas = backstage ∷ hr ∷ asset ∷ []

-- A row of `approval_requests`.
pub record Request : Type 0 where
  pub id : ℕ
  pub version : ℕ
  pub request_type : String
  pub status : ApprovalStatus
  pub submitted_at : Option ℕ
  pub cancelled_at : Option ℕ
  pub cancel_source : Option CancelSource
  pub updated_at : ℕ

-- A row of `approval_actions`.
pub record ActionEntry : Type 0 where
  pub request_id : ℕ
  pub action : ApprovalAction
  pub actor_id : ℕ
  pub actor_name : String
  pub opinion : Option String
  pub cancel_source : Option CancelSource
  pub created_at : ℕ

pub record OverdueApprovalRow : Type 0 where
  pub id : ℕ
  pub version : ℕ
  pub request_type : String

pub record Tables : Type 0 where
  pub requests : List Request
  pub actions : List ActionEntry

pub record Database (B : Type 0) : Type 0 where
  pub backstage_tables : Tables
  pub hr_tables : Tables
  pub asset_tables : Tables
  pub business : B

module _ {B : Type 0} where
  abbrev pub tables : Schema → Database B → Tables
  tables backstage db = db.backstage_tables
  tables hr db = db.hr_tables
  tables asset db = db.asset_tables

  abbrev pub set_tables : Schema → Tables → Database B → Database B
  set_tables backstage t db = record db { backstage_tables = t }
  set_tables hr t db = record db { hr_tables = t }
  set_tables asset t db = record db { asset_tables = t }

abbrev pub is_pending : ApprovalStatus → Bool
is_pending pending = true
is_pending _ = false

abbrev before : Option ℕ → ℤ → Bool
before none cutoff = false
before (some t) cutoff = ltb_pos t cutoff

-- status = 'PENDING' AND submitted_at IS NOT NULL AND submitted_at < cutoff
unfoldable pub is_overdue : ℤ → Request → Bool
is_overdue cutoff r = is_pending r.status && before r.submitted_at cutoff

-- ORDER BY submitted_at ASC, of rows that have one.
abbrev submitted_le : Option ℕ → Option ℕ → Bool
submitted_le (some a) (some b) = leb a b
submitted_le none _ = false
submitted_le (some a) none = true

abbrev pub earlier : Request → Request → Bool
earlier r s = submitted_le r.submitted_at s.submitted_at

abbrev pub to_row : Request → OverdueApprovalRow
to_row r = record { id = r.id; version = r.version; request_type = r.request_type }

unfoldable pub list_overdue_pending : List Request → ℤ → ℕ → List OverdueApprovalRow
list_overdue_pending requests cutoff limit =
    map to_row (take limit (order_by earlier (keep_if (is_overdue cutoff) requests)))

-- id = $1 AND status = 'PENDING' AND version = $2
unfoldable pub is_hit : OverdueApprovalRow → Request → Bool
is_hit row r = r.id == row.id && is_pending r.status && r.version == row.version

abbrev pub cancel_request : ℕ → Request → Request
cancel_request now r = record r {
  status = cancelled;
  version = r.version + 1;
  cancelled_at = some now;
  cancel_source = some overdue;
  updated_at = now;
}

abbrev pub auto_cancel_entry : OverdueApprovalRow → ℕ → ActionEntry
auto_cancel_entry row now = record {
  request_id = row.id;
  action = ApprovalAction.auto_cancel;
  actor_id = 0;
  actor_name = "system";
  opinion = none;
  cancel_source = some overdue;
  created_at = now;
}

-- The two statements before the hook: `none` if the update hit no row.
unfoldable pub cancel_in_tables : OverdueApprovalRow → ℕ → Tables → Option Tables
unfolding is_hit
cancel_in_tables row now t =
    if count_if (is_hit row) t.requests == 0
    then none
    else some (record {
      requests = update_where (is_hit row) (cancel_request now) t.requests;
      actions = t.actions ++ auto_cancel_entry row now ∷ [];
    })

-- What a statement or a hook leaves, and what it returns or throws.
abbrev pub Effect : Type 0 → Type 0 → Type 0 → Type 0
Effect B E A = Database B → Database B × Result E A

abbrev pub Hook : Type 0 → Type 0 → Type 0
Hook B E = Schema → OverdueApprovalRow → ℕ → Effect B E (Unit {0})

-- The number of cancelled requests of each schema.
pub record Counts : Type 0 where
  pub backstage_count : ℕ
  pub hr_count : ℕ
  pub asset_count : ℕ

abbrev set_count : Schema → ℕ → Counts → Counts
set_count backstage n c = record c { backstage_count = n }
set_count hr n c = record c { hr_count = n }
set_count asset n c = record c { asset_count = n }

abbrev count_ok : Bool → ℕ → ℕ
count_ok true n = n + 1
count_ok false n = n

module _ {B E : Type 0} where
  abbrev then_true : Database B × Result E (Unit {0}) → Database B × Result E Bool
  then_true (db, ok u) = (db, ok true)
  then_true (db, err e) = (db, err e)

  -- `if (hook) await hook.onAutoCancel(…); return true`
  abbrev run_hook : Option (Hook B E) → Schema → OverdueApprovalRow → ℕ → Effect B E Bool
  run_hook none schema row now db = (db, ok true)
  run_hook (some hook) schema row now db = then_true (hook schema row now db)

  -- The closure `cancel`.
  abbrev after_update :
      Option (Hook B E)
      → Schema
      → OverdueApprovalRow
      → ℕ
      → Database B
      → Option Tables
      → Database B × Result E Bool
  after_update hook schema row now db none = (db, ok false)
  after_update hook schema row now db (some t) =
      run_hook hook schema row now (set_tables schema t db)

  abbrev cancel : Option (Hook B E) → Schema → OverdueApprovalRow → ℕ → Effect B E Bool
  cancel hook schema row now db =
      after_update hook schema row now db (cancel_in_tables row now (tables schema db))

  -- A transaction that throws leaves the database as it was.
  abbrev commit {ℓ} : {A : Type ℓ} → Database B → Database B × Result E A → Database B × Result E A
  commit before_it (db, ok a) = (db, ok a)
  commit before_it (db, err e) = (before_it, err e)

  -- `transactional` says whether the client has `transaction`.
  unfoldable pub auto_cancel_overdue_row :
      Bool → Option (Hook B E) → Schema → OverdueApprovalRow → ℕ → Effect B E Bool
  auto_cancel_overdue_row transactional hook schema row now db =
      if transactional
      then commit db (cancel hook schema row now db)
      else cancel hook schema row now db

  -- `if (ok) cancelled += 1`, and on with the other rows; an error ends the scan.
  abbrev after_row : ℕ → (ℕ → Effect B E ℕ) → Database B × Result E Bool → Database B × Result E ℕ
  after_row n rest (db, ok b) = rest (count_ok b n) db
  after_row n rest (db, err e) = (db, err e)

  -- The inner loop, which counts the rows that were cancelled.
  unfoldable pub cancel_rows :
      Bool → Option (Hook B E) → Schema → ℕ → List OverdueApprovalRow → ℕ → Effect B E ℕ
  cancel_rows transactional hook schema now [] n db = (db, ok n)
  cancel_rows transactional hook schema now (row ∷ rows) n db =
      after_row n (cancel_rows transactional hook schema now rows)
        (auto_cancel_overdue_row transactional hook schema row now db)

  -- One round of the outer loop.
  unfoldable pub scan_schema : Bool → Option (Hook B E) → Schema → ℕ → ℤ → Effect B E ℕ
  unfolding cancel_rows list_overdue_pending
  scan_schema transactional hook schema now cutoff db =
      let rows =
        list_overdue_pending (tables schema db).requests cutoff approval_timeout_batch_size in
      cancel_rows transactional hook schema now rows 0 db

  abbrev after_schema :
      Schema
      → Counts
      → (Counts → Effect B E Counts)
      → Database B × Result E ℕ
      → Database B × Result E Counts
  after_schema schema result rest (db, ok n) = rest (set_count schema n result) db
  after_schema schema result rest (db, err e) = (db, err e)

  -- The outer loop. Each schema has its own hook, if any.
  unfoldable pub scan_schemas :
      Bool → (Schema → Option (Hook B E)) → ℕ → ℤ → List Schema → Counts → Effect B E Counts
  scan_schemas transactional hooks now cutoff [] result db = (db, ok result)
  scan_schemas transactional hooks now cutoff (schema ∷ schemas) result db =
      after_schema schema result (scan_schemas transactional hooks now cutoff schemas)
        (scan_schema transactional (hooks schema) schema now cutoff db)

  unfoldable pub scan_and_auto_cancel_overdue :
      Bool → (Schema → Option (Hook B E)) → Number → ℕ → Effect B E Counts
  unfolding scan_schemas
  scan_and_auto_cancel_overdue transactional hooks timeout_days now db =
      scan_schemas transactional hooks now (overdue_cutoff now timeout_days) approval_schemas
        (record { backstage_count = 0; hr_count = 0; asset_count = 0 }) db
