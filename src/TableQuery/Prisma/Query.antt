-- ===== src/TableQuery/Prisma/Query.antt =====
-- buildTablePrismaQuery: trees of conditions and sorts as a Prisma query.
pub mod Laws
pub mod Fields
use wbme.Common.{
  ℕ, Option, none, some, List, [], ◌∷◌, ◌++◌, String, Result, ok, err, ◌>>=◌, if◌then◌else◌, any,
  str_eq,
}
use wbme.TableQuery.{
  TableFilterCondition, TableFilterTreeNode, TableFilterTreeNodes, leaf, group, no_nodes, node,
  TableFilterTreeGroup, Direction, desc, Sort, TableQueryInput, TableQueryError, unsupported_sort,
  Platform,
}
use wbme.TableQuery.Filters.{parse_filters, parse_sorts}
use wbme.TableQuery.Context.{TableConditionContext, field_definition, context_of}
use wbme.TableQuery.Prisma.{
  PrismaWhere, PrismaWheres, combine, no_wheres, where_also, PrismaColumns, one_column, columns,
  TablePrismaField, unsupported, compile_standard,
}

abbrev pub column_list : PrismaColumns → List String
column_list (one_column f) = f ∷ []
column_list (columns fs) = fs

-- `undefined` of a custom predicate goes on with the standard compilation, if there is a column.
abbrev pub after_custom :
    Platform
    → ℕ
    → TableFilterCondition
    → TablePrismaField
    → Option PrismaWhere
    → Result TableQueryError PrismaWhere
after_custom p now c d (some w) = ok w
after_custom p now c d none = elim d.prisma_field [
  | none ↦ unsupported c
  | some cols ↦ compile_standard (column_list cols) c p now d.type
]

abbrev pub with_custom :
    Platform
    → ℕ
    → TableFilterCondition
    → TablePrismaField
    → Option (TableConditionContext → Option PrismaWhere)
    → Result TableQueryError PrismaWhere
with_custom p now c d none = after_custom p now c d none
with_custom p now c d (some custom) =
    context_of p c d.type >>= (λ ctx. after_custom p now c d (custom ctx))

module _ (p : Platform) (now : ℕ) (fields : List (String × TablePrismaField)) where
  unfoldable pub compile_condition : TableFilterCondition → Result TableQueryError PrismaWhere
  unfolding field_definition context_of compile_standard
  compile_condition c = do d ← field_definition c.field fields; with_custom p now c d d.compile

  mutual
    pub compile_node : TableFilterTreeNode → Result TableQueryError PrismaWhere
    compile_node (leaf c) = compile_condition c
    compile_node (group logic ns) = do ws ← compile_nodes ns; ok (combine logic ws)

    pub compile_nodes : TableFilterTreeNodes → Result TableQueryError PrismaWheres
    compile_nodes no_nodes = ok no_wheres
    compile_nodes (node n ns) = do w ← compile_node n; ws ← compile_nodes ns; ok (where_also w ws)

  unfoldable pub compile_group : TableFilterTreeGroup → Result TableQueryError PrismaWhere
  unfolding compile_nodes
  compile_group tree = do ws ← compile_nodes tree.conditions; ok (combine tree.logic ws)

abbrev pub sort_column : String → Option PrismaColumns → Result TableQueryError String
sort_column f (some (one_column g)) = ok g
sort_column f _ = err (unsupported_sort f)

pub compile_sorts :
    List (String × TablePrismaField)
    → List Sort
    → Result TableQueryError (List (String × Direction))
compile_sorts fields [] = ok []
compile_sorts fields (s ∷ ss) = do
  d ← field_definition s.field fields
  g ← sort_column s.field d.prisma_field
  gs ← compile_sorts fields ss
  ok ((g, s.direction) ∷ gs)

-- A sort by the unique id at the end, for pages that are stable.
unfoldable pub with_id : List (String × Direction) → List (String × Direction)
with_id [] = []
with_id (s ∷ ss) =
    if any (λ t. str_eq t.0 "id") (s ∷ ss) then s ∷ ss else (s ∷ ss) ++ ("id", desc) ∷ []

pub record TablePrismaQuery : Type 0 where
  pub conditions : Option PrismaWhere
  pub order : List (String × Direction)

abbrev pub compile_filters :
    Platform
    → ℕ
    → List (String × TablePrismaField)
    → Option TableFilterTreeGroup
    → Result TableQueryError (Option PrismaWhere)
compile_filters p now fields none = ok none
compile_filters p now fields (some tree) = do w ← compile_group p now fields tree; ok (some w)

-- A missing `orderBy` is an empty order.
unfoldable pub build_table_prisma_query :
    Platform
    → ℕ
    → List (String × TablePrismaField)
    → TableQueryInput
    → Result TableQueryError TablePrismaQuery
unfolding compile_sorts with_id compile_group parse_filters parse_sorts
build_table_prisma_query p now fields input = do
  filters ← parse_filters p input.filters
  sorts ← parse_sorts p input.sorts
  order ← compile_sorts fields sorts
  w ← compile_filters p now fields filters
  ok (record { conditions = w; order = with_id order })
