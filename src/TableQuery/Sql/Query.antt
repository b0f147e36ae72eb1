-- ===== src/TableQuery/Sql/Query.antt =====
-- buildTableSqlQuery: trees of conditions and sorts as SQL.
pub mod Laws
use wbme.Common.{
  ℕ, Option, none, some, List, [], ◌∷◌, ◌++◌, String, Result, ok, err, ◌>>=◌, if◌then◌else◌, any,
  str_eq,
}
use wbme.TableQuery.{
  TableFilterCondition, Logic, and, or, TableFilterTreeNode, TableFilterTreeNodes, leaf, group,
  no_nodes, node, TableFilterTreeGroup, Direction, desc, Sort, TableQueryInput, Scalar,
  TableQueryError, unsupported_sort, Platform,
}
use wbme.TableQuery.Filters.{parse_filters, parse_sorts}
use wbme.TableQuery.Context.{field_definition, context_of}
use wbme.TableQuery.Sql.{
  Piece, sql, Registered, TableSqlField, column, custom, compile_column, custom_result,
}

abbrev pub compile_field :
    ℕ
    → Platform
    → ℕ
    → TableFilterCondition
    → TableSqlField
    → List Scalar
    → Result TableQueryError Registered
compile_field offset p now c (column col type) params =
    compile_column offset col c p now type params
compile_field offset p now c (custom type predicate) params =
    context_of p c type >>= (λ ctx. custom_result offset "" c (predicate ctx params))

module _ (offset : ℕ) (p : Platform) (now : ℕ) (fields : List (String × TableSqlField)) where
  unfoldable pub compile_sql_condition :
      TableFilterCondition → List Scalar → Result TableQueryError Registered
  unfolding compile_column field_definition context_of
  compile_sql_condition c params = do
    d ← field_definition c.field fields
    compile_field offset p now c d params

  abbrev pub logic_text : Logic → Piece
  logic_text and = sql " AND "
  logic_text or = sql " OR "

  -- `join`: the texts of the members with the logic between them.
  abbrev pub joined : Logic → List Piece → TableFilterTreeNodes → List Piece → List Piece
  joined logic first no_nodes rest = first
  joined logic first (node n ns) rest = first ++ logic_text logic ∷ rest

  mutual
    pub compile_node : TableFilterTreeNode → List Scalar → Result TableQueryError Registered
    compile_node (leaf c) params = compile_sql_condition c params
    compile_node (group logic ns) params = do
      r ← compile_nodes logic ns params
      ok (sql "(" ∷ r.0 ++ sql ")" ∷ [], r.1)

    pub compile_nodes :
        Logic → TableFilterTreeNodes → List Scalar → Result TableQueryError Registered
    compile_nodes logic no_nodes params = ok ([], params)
    compile_nodes logic (node n ns) params = do
      r ← compile_node n params
      s ← compile_nodes logic ns r.1
      ok (joined logic r.0 ns s.0, s.1)

  abbrev pub compile_filters :
      Option TableFilterTreeGroup → Result TableQueryError (Option (List Piece) × List Scalar)
  compile_filters none = ok (none, [])
  compile_filters (some tree) = do
    r ← compile_node (group tree.logic tree.conditions) []
    ok (some r.0, r.1)

abbrev sort_column : String → TableSqlField → Result TableQueryError String
sort_column f (column col type) = ok col
sort_column f (custom type predicate) = err (unsupported_sort f)

pub compile_sorts :
    List (String × TableSqlField) → List Sort → Result TableQueryError (List (String × Direction))
compile_sorts fields [] = ok []
compile_sorts fields (s ∷ ss) = do
  d ← field_definition s.field fields
  col ← sort_column s.field d
  cols ← compile_sorts fields ss
  ok ((col, s.direction) ∷ cols)

abbrev id_column : Result TableQueryError TableSqlField → List (String × Direction)
id_column (ok (column col type)) = (col, desc) ∷ []
id_column _ = []

-- The sort by id at the end, where a sortable id is registered and the client does not sort by it.
unfoldable pub with_id :
    List (String × TableSqlField)
    → List Sort
    → List (String × Direction)
    → List (String × Direction)
unfolding field_definition
with_id fields sorts [] = []
with_id fields sorts (o ∷ os) =
    if any (λ s. str_eq s.field "id") sorts
    then o ∷ os
    else (o ∷ os) ++ id_column (field_definition "id" fields)

pub record TableSqlQuery : Type 0 where
  pub where_sql : Option (List Piece)
  pub params : List Scalar
  pub order_by_sql : List (String × Direction)

-- `order_by_sql` keeps the columns and directions that the source joins by commas.
unfoldable pub build_table_sql_query :
    Platform
    → ℕ
    → List (String × TableSqlField)
    → ℕ
    → TableQueryInput
    → Result TableQueryError TableSqlQuery
unfolding compile_node compile_sorts with_id parse_filters parse_sorts
build_table_sql_query p now fields offset input = do
  filters ← parse_filters p input.filters
  sorts ← parse_sorts p input.sorts
  r ← compile_filters offset p now fields filters
  order ← compile_sorts fields sorts
  ok (record { where_sql = r.0; params = r.1; order_by_sql = with_id fields sorts order })
