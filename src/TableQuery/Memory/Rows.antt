-- ===== src/TableQuery/Memory/Rows.antt =====
-- filterAndSortTableRows: the same filters and sorts on rows in memory.
pub mod Laws
pub mod Order
pub mod Matching
pub mod Ranking
use wbme.Common.{
  ℕ, suc, Bool, true, false, Option, none, some, List, [], ◌∷◌, map, String, Result, ok, err, ◌>>=◌,
  if◌then◌else◌, ltb, leb, ◌==◌, ◌&&◌, ◌||◌, not, str_eq, codes_eq, includes,
}
use wbme.Common.{starts_with as codes_start_with, ends_with as codes_end_with}
use wbme.TableQuery.{
  TableOperator, equals, not_equals, contains, not_contains, greater_than, greater_than_or_equal,
  less_than, less_than_or_equal, before, after, between, is_empty, is_not_empty, starts_with,
  ends_with, TableFilterCondition, Logic, and, or, TableFilterTreeNode, TableFilterTreeNodes, leaf,
  group, no_nodes, node, TableFilterTreeGroup, Direction, asc, desc, Sort, TableQueryInput,
  FieldType, Scalar, Cell, Sign, negative, zero, positive, nan, TableQueryError,
  unsupported_operator, Platform,
}
use wbme.TableQuery.Filters.{parse_filters, parse_sorts}
use wbme.TableQuery.ScalarValue.{
  operator_of, is_valueless, is_relative_date, scalar_value, next_day, DateRange,
}
use wbme.TableQuery.Context.{date_range_for, range_end, field_definition}
use wbme.TableQuery.Memory.{
  TableInMemoryField, is_missing, memory_date, memory_number, memory_text, match_cell,
}

module _ {ℓ} {Row : Type ℓ} (p : Platform) (now : ℕ)
    (fields : List (String × TableInMemoryField Row)) where
  unfoldable pub matches_memory_condition : Row → TableFilterCondition → Result TableQueryError Bool
  unfolding match_cell field_definition
  matches_memory_condition row c = do
    d ← field_definition c.field fields
    match_cell p c now d.type (d.value row)

  abbrev pub joined : Logic → Bool → Bool → Bool
  joined and a b = a && b
  joined or a b = a || b

  abbrev pub unit_of : Logic → Bool
  unit_of and = true
  unit_of or = false

  -- All members are evaluated, then `every` or `some` of them are asked for.
  unfoldable mutual
    pub matches_node : Row → TableFilterTreeNode → Result TableQueryError Bool
    matches_node row (leaf c) = matches_memory_condition row c
    matches_node row (group logic ns) = matches_nodes row logic ns

    pub matches_nodes : Row → Logic → TableFilterTreeNodes → Result TableQueryError Bool
    matches_nodes row logic no_nodes = ok (unit_of logic)
    matches_nodes row logic (node n ns) = do
      a ← matches_node row n
      b ← matches_nodes row logic ns
      ok (joined logic a b)

  abbrev pub matches_filters : Option TableFilterTreeGroup → Row → Result TableQueryError Bool
  matches_filters none row = ok true
  matches_filters (some tree) row = matches_nodes row tree.logic tree.conditions

  -- The rows that match, each with its index among them.
  unfoldable pub filter_rows :
      Option TableFilterTreeGroup → ℕ → List Row → Result TableQueryError (List (Row × ℕ))
  filter_rows filters index [] = ok []
  filter_rows filters index (row ∷ rows) = do
    hit ← matches_filters filters row
    rest ← filter_rows filters (if hit then suc index else index) rows
    ok (if hit then (row, index) ∷ rest else rest)

  -- Missing values come last; a text that is no date counts as missing.
  abbrev pub sign_of : ℕ → ℕ → Sign
  sign_of a b = if ltb a b then negative else if ltb b a then positive else zero

  abbrev pub subtract : Option ℕ → Option ℕ → Sign
  subtract (some a) (some b) = sign_of a b
  subtract _ _ = nan

  abbrev pub compare_dates : Option ℕ → Option ℕ → Sign
  compare_dates (some a) (some b) = sign_of a b
  compare_dates (some a) none = negative
  compare_dates none (some b) = positive
  compare_dates none none = zero

  abbrev pub compare_present : FieldType → Cell → Cell → Sign
  compare_present FieldType.number a b = subtract (memory_number p a) (memory_number p b)
  compare_present FieldType.time a b = subtract (memory_number p a) (memory_number p b)
  compare_present FieldType.date a b = compare_dates (memory_date p a) (memory_date p b)
  compare_present _ a b = p.locale_compare (memory_text p a) (memory_text p b)

  unfoldable pub compare_memory_values : FieldType → Cell → Cell → Sign
  unfolding memory_date memory_number
  compare_memory_values type a b =
      if is_missing a
      then (if is_missing b then zero else positive)
      else if is_missing b
      then negative
      else compare_present type a b

  abbrev pub opposite : Sign → Sign
  opposite negative = positive
  opposite positive = negative
  opposite s = s

  abbrev pub directed : Direction → Sign → Sign
  directed asc s = s
  directed desc s = opposite s

  abbrev pub or_next : Direction → Sign → Result TableQueryError Sign → Result TableQueryError Sign
  or_next d zero next = next
  or_next d s next = ok (directed d s)

  -- The comparison of `sort`: the first sort that tells the rows apart, and their indices.
  unfoldable pub compare_rows : List Sort → Row × ℕ → Row × ℕ → Result TableQueryError Sign
  unfolding compare_memory_values field_definition
  compare_rows [] a b = ok (sign_of a.1 b.1)
  compare_rows (s ∷ ss) a b =
      let next = compare_rows ss a b in
      do
        d ← field_definition s.field fields
        or_next s.direction (compare_memory_values d.type (d.value a.0) (d.value b.0)) next

  abbrev pub goes_first : Sign → Bool
  goes_first positive = false
  goes_first _ = true

  -- `Array.prototype.sort`, which is stable, as an insertion sort; NaN counts as 0 there. Where NaN
  -- makes the comparison inconsistent, the order of the source depends on the implementation.
  unfoldable pub insert_row :
      List Sort → Row × ℕ → List (Row × ℕ) → Result TableQueryError (List (Row × ℕ))
  unfolding compare_rows
  insert_row sorts a [] = ok (a ∷ [])
  insert_row sorts a (b ∷ bs) =
      let rest = insert_row sorts a bs in
      do
        s ← compare_rows sorts a b
        if goes_first s then ok (a ∷ b ∷ bs) else rest >>= (λ cs. ok (b ∷ cs))

  unfoldable pub sort_rows : List Sort → List (Row × ℕ) → Result TableQueryError (List (Row × ℕ))
  unfolding insert_row
  sort_rows sorts [] = ok []
  sort_rows sorts (a ∷ rows) = do bs ← sort_rows sorts rows; insert_row sorts a bs

  -- Without sorts the rows stay as they are.
  abbrev pub sort_if : List Sort → List (Row × ℕ) → Result TableQueryError (List (Row × ℕ))
  sort_if [] rows = ok rows
  sort_if (s ∷ ss) rows = sort_rows (s ∷ ss) rows

  unfoldable pub filter_and_sort_table_rows :
      TableQueryInput → List Row → Result TableQueryError (List Row)
  unfolding parse_filters parse_sorts filter_rows sort_rows
  filter_and_sort_table_rows input rows = do
    filters ← parse_filters p input.filters
    sorts ← parse_sorts p input.sorts
    kept ← filter_rows filters 0 rows
    sorted ← sort_if sorts kept
    ok (map (λ r. r.0) sorted)
