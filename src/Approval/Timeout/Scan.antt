-- ===== src/Approval/Timeout/Scan.antt =====
-- A scan with no hook, schema by schema: how many requests it cancels, and what it leaves.
use wbme.Common.{
  ℕ, suc, ◌+◌, ◌≡◌, refl, ap, ◌∙◌, ◌≢◌, Bool, true, false, none, some, List, [], ◌∷◌, ◌++◌, ℤ,
  arith, All, count_if, update_where, Distinct, ok, min, length, take, keep_if, order_by,
  length-append, length-take, length-order_by, length-keep_if, All-take, All-order_by,
  All-keep_if_test, Distinct-order_by, Distinct-keep_if, Distinct-update_where, All-map,
  Distinct-map, Distinct-take, length-map,
}
use Prim.Native.Nat.add
use native.Mathlib.Nat.{add-zero}
use wbme.Approval.Timeout.{
  Request, OverdueApprovalRow, Tables, Database, Schema, backstage, hr, asset, tables, set_tables,
  is_overdue, is_hit, cancel_request, auto_cancel_entry, to_row, cancel_in_tables,
  auto_cancel_overdue_row, cancel_rows, after_update, commit, after_row, scan_schema,
  list_overdue_pending, earlier,
}
use wbme.Approval.Timeout.Update.{
  is_pick, picks-update_where, overdue-update_where, picks-le-hits, Distinct-Single, Evolved,
  Evolved-refl, Evolved-trans, Evolved-cancel,
}

module _ {B : Type 0} where
  pub tables-set_tables :
      (schema : Schema) (t : Tables) (db : Database B) → tables schema (set_tables schema t db) ≡ t
  tables-set_tables backstage t db = refl
  tables-set_tables hr t db = refl
  tables-set_tables asset t db = refl

  set_tables-set_tables :
      (schema : Schema) (t u : Tables) (db : Database B)
      → set_tables schema u (set_tables schema t db) ≡ set_tables schema u db
  set_tables-set_tables backstage t u db = refl
  set_tables-set_tables hr t u db = refl
  set_tables-set_tables asset t u db = refl

  set_tables_self :
      (schema : Schema) (db : Database B) → set_tables schema (tables schema db) db ≡ db
  set_tables_self backstage db = refl
  set_tables_self hr db = refl
  set_tables_self asset db = refl

abbrev after_cancel : OverdueApprovalRow → ℕ → Tables → Tables
after_cancel row now t = record {
  requests = update_where (is_hit row) (cancel_request now) t.requests;
  actions = t.actions ++ auto_cancel_entry row now ∷ [];
}

cancel_in_tables_pick :
    (cutoff : ℤ) (row : OverdueApprovalRow) (now : ℕ) (t : Tables)
    → count_if (is_pick cutoff row) t.requests ≡ 1
    → cancel_in_tables row now t ≡ some (after_cancel row now t)
unfolding cancel_in_tables
cancel_in_tables_pick cutoff row now t p = ground (arith, picks-le-hits cutoff row t.requests)

-- A row that names a request still overdue is cancelled.
auto_cancel_pick :
    {B E : Type 0} (transactional : Bool) (schema : Schema) (cutoff : ℤ) (row : OverdueApprovalRow)
    (now : ℕ) (db : Database B)
    → count_if (is_pick cutoff row) (tables schema db).requests ≡ 1
    → auto_cancel_overdue_row {E = E} transactional none schema row now db
      ≡ (set_tables schema (after_cancel row now (tables schema db)) db, ok true)
unfolding auto_cancel_overdue_row
auto_cancel_pick true schema cutoff row now db p =
    ap (λ t. commit db (after_update none schema row now db t))
      (cancel_in_tables_pick cutoff row now (tables schema db) p)
auto_cancel_pick false schema cutoff row now db p =
    ap (after_update none schema row now db)
      (cancel_in_tables_pick cutoff row now (tables schema db) p)

-- What a scan of one schema leaves behind, for the tables `t` before and `u` after it, when it
-- cancels `n` requests.
pub record Cancels (cutoff : ℤ) (now : ℕ) (t u : Tables) (n : ℕ) : Type 0 where
  pub left : count_if (is_overdue cutoff) u.requests + n ≡ count_if (is_overdue cutoff) t.requests
  pub logged : length u.actions ≡ length t.actions + n
  pub evolved : Evolved cutoff now t.requests u.requests
  pub distinct : Distinct (λ r. r.id) u.requests

module _ (cutoff : ℤ) (now : ℕ) where
  Cancels-one :
      (row : OverdueApprovalRow) (t : Tables)
      → Distinct (λ r. r.id) t.requests
      → count_if (is_pick cutoff row) t.requests ≡ 1
      → Cancels cutoff now t (after_cancel row now t) 1
  Cancels-one row t d p = record {
    left = omega (arith, overdue-update_where cutoff now row t.requests);
    logged = omega (arith, length-append t.actions (auto_cancel_entry row now ∷ []));
    evolved = Evolved-cancel cutoff now row t.requests d p;
    distinct =
        Distinct-update_where (λ r. r.id) (is_hit row) (cancel_request now) (λ r. refl) t.requests
          d;
  }

  Cancels-trans :
      (t u v : Tables) (m n total : ℕ)
      → Cancels cutoff now t u m
      → Cancels cutoff now u v n
      → total ≡ m + n
      → Cancels cutoff now t v total
  Cancels-trans t u v m n total h k e = record {
    left = omega arith;
    logged = omega arith;
    evolved = Evolved-trans cutoff now t.requests u.requests v.requests h.evolved k.evolved;
    distinct = k.distinct;
  }

  -- The rows still name one overdue request each after one of another id is cancelled.
  picks_kept :
      (row : OverdueApprovalRow) (rows : List OverdueApprovalRow) (rs : List Request)
      → All (λ other. other.id ≢ row.id) rows
      → All (λ other. count_if (is_pick cutoff other) rs ≡ 1) rows
      → All
          (λ other.
            count_if (is_pick cutoff other) (update_where (is_hit row) (cancel_request now) rs) ≡ 1)
          rows
  picks_kept row [] rs d h = tt
  picks_kept row (other ∷ rows) rs d h =
      (picks-update_where cutoff now row other rs d.0 ∙ h.0, picks_kept row rows rs d.1 h.1)

  cancel_rows-Cancels :
      {B E : Type 0} (transactional : Bool) (schema : Schema) (rows : List OverdueApprovalRow)
      (n : ℕ) (db : Database B)
      → Distinct (λ r. r.id) rows
      → Distinct (λ r. r.id) (tables schema db).requests
      → All (λ row. count_if (is_pick cutoff row) (tables schema db).requests ≡ 1) rows
      → (u : Tables) × (cancel_rows {E = E} transactional none schema now rows n db
          ≡ (set_tables schema u db, ok (n + length rows)))
        × Cancels cutoff now (tables schema db) u (length rows)
  unfolding cancel_rows
  cancel_rows-Cancels {E} transactional schema [] n db dr dt h = (
    tables schema db,
    rw (set_tables_self schema db, add-zero n) refl,
    record {
      left = omega arith;
      logged = omega arith;
      evolved = Evolved-refl cutoff now (tables schema db).requests;
      distinct = dt;
    },
  )
  cancel_rows-Cancels {B} {E} transactional schema (row ∷ rows) n db dr dt h =
      let t : Tables = tables schema db in
      let one : Cancels cutoff now t (after_cancel row now t) 1 = Cancels-one row t dt h.0 in
      let db' : Database B = set_tables schema (after_cancel row now t) db in
      let same : tables schema db' ≡ after_cancel row now t =
        tables-set_tables schema (after_cancel row now t) db in
      let (u, e, c) =
        cancel_rows-Cancels {E = E} transactional schema rows (n + 1) db' dr.1
          (rw same one.distinct) (rw same (picks_kept row rows t.requests dr.0 h.1)) in
      (
        u,
        ap (after_row n (cancel_rows transactional none schema now rows))
              (auto_cancel_pick transactional schema cutoff row now db h.0)
            ∙ e
            ∙ ap (λ d. (d, ok (n + 1 + length rows)))
                (set_tables-set_tables schema (after_cancel row now t) u db)
            ∙ ap (λ m. (set_tables schema u db, ok m)) (omega arith),
        Cancels-trans t (after_cancel row now t) u 1 (length rows) (suc (length rows)) one
            (rw same at c) (omega arith),
      )

  -- The rows that a scan reads name one overdue request each.
  listed-Single :
      (rs : List Request) (limit : ℕ)
      → Distinct (λ r. r.id) rs
      → All (λ row. count_if (is_pick cutoff row) rs ≡ 1) (list_overdue_pending rs cutoff limit)
  unfolding list_overdue_pending
  listed-Single rs limit d =
      All-map (λ row. count_if (is_pick cutoff row) rs ≡ 1) to_row
        (take limit (order_by earlier (keep_if (is_overdue cutoff) rs)))
        (All-take (λ r. count_if (is_pick cutoff (to_row r)) rs ≡ 1) limit
          (order_by earlier (keep_if (is_overdue cutoff) rs))
          (All-order_by (λ r. count_if (is_pick cutoff (to_row r)) rs ≡ 1) earlier
            (keep_if (is_overdue cutoff) rs)
            (All-keep_if_test (λ r. count_if (is_pick cutoff (to_row r)) rs ≡ 1) (is_overdue cutoff)
              rs (Distinct-Single cutoff rs d))))

  listed-Distinct :
      (rs : List Request) (limit : ℕ)
      → Distinct (λ r. r.id) rs
      → Distinct (λ r. r.id) (list_overdue_pending rs cutoff limit)
  unfolding list_overdue_pending
  listed-Distinct rs limit d =
      Distinct-map (λ r. r.id) (λ r. r.id) to_row (λ r. refl)
        (take limit (order_by earlier (keep_if (is_overdue cutoff) rs)))
        (Distinct-take (λ r. r.id) limit (order_by earlier (keep_if (is_overdue cutoff) rs))
          (Distinct-order_by (λ r. r.id) earlier (keep_if (is_overdue cutoff) rs)
            (Distinct-keep_if (λ r. r.id) (is_overdue cutoff) rs d)))

  length-listed :
      (rs : List Request) (limit : ℕ)
      → length (list_overdue_pending rs cutoff limit) ≡ min limit (count_if (is_overdue cutoff) rs)
  unfolding list_overdue_pending
  length-listed rs limit =
      length-map (take limit (order_by earlier (keep_if (is_overdue cutoff) rs))) to_row
      ∙ length-take limit (order_by earlier (keep_if (is_overdue cutoff) rs))
      ∙ ap (min limit) (
          length-order_by earlier (keep_if (is_overdue cutoff) rs)
          ∙ length-keep_if (is_overdue cutoff) rs)

  -- A scan of a schema with distinct ids and no hook cancels exactly the overdue requests, 200 at
  -- most: it reports their number, logs one action for each, leaves the overdue ones beyond that
  -- number, and every other request as it was; other schemas are not touched.
  pub scan_schema-Cancels :
      {B E : Type 0} (transactional : Bool) (schema : Schema) (db : Database B)
      → Distinct (λ r. r.id) (tables schema db).requests
      → let n = min 200 (count_if (is_overdue cutoff) (tables schema db).requests) in
        (u : Tables) × (scan_schema {E = E} transactional none schema now cutoff db
          ≡ (set_tables schema u db, ok n))
        × Cancels cutoff now (tables schema db) u n
  unfolding scan_schema
  scan_schema-Cancels {E} transactional schema db d =
      let rs = (tables schema db).requests in
      let (u, e, c) =
        cancel_rows-Cancels {E = E} transactional schema (list_overdue_pending rs cutoff 200) 0 db
          (listed-Distinct rs 200 d) d (listed-Single rs 200 d) in
      rw (← length-listed rs 200) (u, e ∙ ap (λ m. (set_tables schema u db, ok m)) (add.zero _), c)
