-- ===== src/TableQuery/RowTests.antt =====
-- Prisma queries and rows in memory: the theorems at concrete inputs.
use wbme.Common.{
  ℕ, ◌≡◌, refl, ap, Bool, true, false, not, ◌&&◌, ◌||◌, none, some, List, [], ◌∷◌, String, ok,
  map_ok, get, Bool-cases, ok-injective, count_if, ltb, str_eq, All, inl, inr,
}
use wbme.TableQuery.{or, and, asc, desc, Sort, Direction, FieldType, Scalar, Cell}
use wbme.TableQuery.Filters.{parse_filters, collect_table_filter_fields}
use wbme.TableQuery.ScalarValue.{operator_of, scalar_value}
use wbme.TableQuery.Context.{field_definition}
use wbme.TableQuery.Prisma.{
  PrismaTest, PrismaWhere, PrismaWheres, column, combine, negate, fragment, no_wheres, where_also,
  is_null, not_null, not_text, is, is_not, gt, gte, lt, lte, gte_lte, gte_lt, TablePrismaField,
  one_column, compile_standard,
}
use wbme.TableQuery.Prisma.Query.{TablePrismaQuery, build_table_prisma_query, compile_condition}
use wbme.TableQuery.Prisma.Columns.{Columns}
use wbme.TableQuery.Prisma.Query.Laws.{
  IsMapped, CustomIsMapped, IsSortable, build_table_prisma_query-IsMapped,
}
use wbme.TableQuery.Prisma.Query.Fields.{IsRegistered, build_table_prisma_query-IsRegistered}
use wbme.TableQuery.Memory.{TableInMemoryField, match_cell, memory_number}
use wbme.TableQuery.Memory.Documented.{IsPrisma, less, at_most, same}
use wbme.TableQuery.Memory.Laws.{reads_number, compile_standard-match_cell}
use wbme.TableQuery.Memory.Rows.{
  filter_and_sort_table_rows, matches_nodes, matches_memory_condition, insert_row, compare_rows,
}
use wbme.TableQuery.Memory.Rows.Matching.{Selects, filter_and_sort_table_rows-Selects}
use wbme.Common.{All, ◌↔◌, inl, inr}
use wbme.TableQuery.Samples.{platform, noon, sorted_input, legacy_tree, count_condition}

abbrev prisma_fields : List (String × TablePrismaField)
prisma_fields =
    (
      "count",
      record {
        prisma_field = some (one_column "itemCount");
        type = FieldType.number;
        compile = none;
      },
    )
    ∷ []

abbrev query_where : PrismaWhere
query_where = combine or (
    where_also (combine and (where_also (column "itemCount" (lt (Scalar.number 5))) no_wheres))
      no_wheres)

abbrev query_order : List (String × Direction)
query_order = ("itemCount", asc) ∷ ("id", desc) ∷ []

abbrev query : TablePrismaQuery
query = record { conditions = some query_where; order = query_order }

legacy_parsed : parse_filters platform sorted_input.filters ≡ ok (some legacy_tree)
unfolding parse_filters get
legacy_parsed = refl

query_built : build_table_prisma_query platform noon prisma_fields sorted_input ≡ ok query
unfolding build_table_prisma_query get operator_of scalar_value compile_condition
query_built = refl

no_custom : CustomIsMapped prisma_fields
unfolding field_definition
no_custom = λ name d custom ctx w found same h. elim (Bool-cases (str_eq "count" name)) [
  | inl t ↦ absurd (cc (ok-injective (rw t at found), same))
  | inr t ↦ absurd (cc (rw t at found))
]

build_table_prisma_query-IsMapped_example :
    ((w : PrismaWhere) → some query_where ≡ some w → Columns (IsMapped prisma_fields) w)
    × All (IsSortable prisma_fields) query_order
build_table_prisma_query-IsMapped_example =
    build_table_prisma_query-IsMapped platform noon prisma_fields sorted_input query no_custom
      query_built

build_table_prisma_query-IsRegistered_example :
    All (IsRegistered platform noon prisma_fields) (collect_table_filter_fields legacy_tree)
build_table_prisma_query-IsRegistered_example =
    build_table_prisma_query-IsRegistered platform noon prisma_fields sorted_input legacy_tree query
      legacy_parsed query_built

-- A database in which the column holds 3.
abbrev three : Scalar
three = Scalar.number 3

abbrev test_holds : PrismaTest → Bool
test_holds is_null = false
test_holds not_null = true
test_holds (is w) = same three w
test_holds (is_not w) = not (same three w)
test_holds (PrismaTest.text t w) = false
test_holds (not_text t w) = true
test_holds (gt w) = less w three
test_holds (gte w) = at_most w three
test_holds (lt w) = less three w
test_holds (lte w) = at_most three w
test_holds (gte_lte a b) = at_most a three && at_most three b
test_holds (gte_lt a b) = at_most a three && less three b

mutual
  holds : PrismaWhere → Bool
  holds (column f t) = test_holds t
  holds (combine and ws) = every ws
  holds (combine or ws) = some_of ws
  holds (negate w) = not (holds w)
  holds (fragment s) = false

  every : PrismaWheres → Bool
  every no_wheres = true
  every (where_also w ws) = holds w && every ws

  some_of : PrismaWheres → Bool
  some_of no_wheres = false
  some_of (where_also w ws) = holds w || some_of ws

or_false : (b : Bool) → (b || false) ≡ b
or_false true = refl
or_false false = refl

holds-IsPrisma : IsPrisma holds "itemCount" three
unfolding holds
holds-IsPrisma = record {
  holds_null = refl;
  holds_not_null = refl;
  holds_is = λ w. refl;
  holds_is_not = λ w. refl;
  holds_gt = λ w. refl;
  holds_gte = λ w. refl;
  holds_lt = λ w. refl;
  holds_lte = λ w. refl;
  holds_gte_lte = λ a b. refl;
  holds_gte_lt = λ a b. refl;
  holds_or = λ a b. ap (λ c. holds a || c) (or_false (holds b));
}

abbrev three_cell : Cell
three_cell = Cell.number (some 3)

compile_standard-match_cell_example :
    map_ok holds
      (compile_standard ("itemCount" ∷ []) count_condition platform noon FieldType.number)
    ≡ match_cell platform count_condition noon FieldType.number three_cell
unfolding memory_number
compile_standard-match_cell_example =
    compile_standard-match_cell platform count_condition holds "itemCount" noon FieldType.number
      three_cell three (reads_number three_cell 3 refl refl) holds-IsPrisma

-- Rows are numbers, and the field reads the number itself.
abbrev row_fields : List (String × TableInMemoryField ℕ)
row_fields =
    ("count", record { type = FieldType.number; value = λ row. Cell.number (some row) }) ∷ []

abbrev some_rows : List ℕ
some_rows = 4 ∷ 7 ∷ 1 ∷ []

rows_sorted :
    filter_and_sort_table_rows platform noon row_fields sorted_input some_rows ≡ ok (1 ∷ 4 ∷ [])
unfolding filter_and_sort_table_rows get matches_nodes matches_memory_condition operator_of
    scalar_value compare_rows insert_row
rows_sorted = refl

-- The filter asks for less than 5, in a group by AND in a group by OR.
abbrev below_five : ℕ → Bool
below_five r = ltb r 5

below_five-Selects :
    All
      (λ r. (below_five r ≡ true) ↔ Selects platform noon row_fields (some legacy_tree) r)
      some_rows
unfolding Selects matches_memory_condition operator_of
below_five-Selects = (
  ((λ e. inl (refl, tt)), (λ h. refl)),
  (
    ((λ e. absurd (cc e)), (λ h. elim h [ inl k ↦ absurd (cc (k.0)) | inr k ↦ absurd k ])),
    (((λ e. inl (refl, tt)), (λ h. refl)), tt),
  ),
)

filter_and_sort_table_rows-Selects_example :
    count_if (λ r. ltb 3 r) (1 ∷ 4 ∷ []) ≡ count_if (λ r. below_five r && ltb 3 r) some_rows
filter_and_sort_table_rows-Selects_example =
    filter_and_sort_table_rows-Selects platform noon row_fields sorted_input (some legacy_tree)
      some_rows (1 ∷ 4 ∷ []) below_five (λ r. ltb 3 r) legacy_parsed rows_sorted below_five-Selects

-- By DESC, then by the index.
abbrev count_sort : List Sort
count_sort = record { field = "count"; direction = desc } ∷ []
