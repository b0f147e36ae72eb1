-- ===== src/TableQuery/Prisma/Query/Fields.antt =====
-- A filter that compiles names only fields of the whitelist.
use wbme.Common.{ℕ, ◌≡◌, List, All, All-append, String, some, ok, bind-eq-ok}
use wbme.TableQuery.{
  TableFilterTreeNode, TableFilterTreeNodes, leaf, group, no_nodes, node, TableFilterTreeGroup,
  TableQueryInput, Platform,
}
use wbme.TableQuery.Filters.{
  walk, walk_each, collect_table_filter_fields, parse_filters, parse_sorts,
}
use wbme.TableQuery.Context.{field_definition}
use wbme.TableQuery.Prisma.{TablePrismaField, PrismaWhere, PrismaWheres}
use wbme.TableQuery.Prisma.Query.{
  TablePrismaQuery, compile_condition, compile_node, compile_nodes, compile_group, compile_filters,
  compile_sorts, build_table_prisma_query,
}

module _ (p : Platform) (now : ℕ) (fields : List (String × TablePrismaField)) where
  abbrev pub IsRegistered : String → Type 0
  IsRegistered f = (d : TablePrismaField) × (field_definition f fields ≡ ok d)

  mutual
    unfolding compile_node compile_nodes compile_condition walk walk_each

    compile_node-IsRegistered :
        (n : TableFilterTreeNode) {w : PrismaWhere}
        → compile_node p now fields n ≡ ok w
        → All IsRegistered (walk n)
    compile_node-IsRegistered (leaf c) e =
        let (d, found, _) = bind-eq-ok (field_definition c.field fields) _ e in ((d, found), tt)
    compile_node-IsRegistered (group logic ns) e =
        let (ws, ew, _) = bind-eq-ok (compile_nodes p now fields ns) _ e in
        compile_nodes-IsRegistered ns ew

    compile_nodes-IsRegistered :
        (ns : TableFilterTreeNodes) {ws : PrismaWheres}
        → compile_nodes p now fields ns ≡ ok ws
        → All IsRegistered (walk_each ns)
    compile_nodes-IsRegistered no_nodes e = tt
    compile_nodes-IsRegistered (node n ns) e =
        let (w, ew, rest) = bind-eq-ok (compile_node p now fields n) _ e in
        let (ws, es, _) = bind-eq-ok (compile_nodes p now fields ns) _ rest in
        All-append IsRegistered (walk n) (walk_each ns) (compile_node-IsRegistered n ew)
          (compile_nodes-IsRegistered ns es)

  -- If a query is built from a filter, every field that collectTableFilterFields finds in the
  -- filter is registered: a filter with another field is refused.
  pub build_table_prisma_query-IsRegistered :
      (input : TableQueryInput) (tree : TableFilterTreeGroup) (query : TablePrismaQuery)
      → parse_filters p input.filters ≡ ok (some tree)
      → build_table_prisma_query p now fields input ≡ ok query
      → All IsRegistered (collect_table_filter_fields tree)
  unfolding build_table_prisma_query collect_table_filter_fields compile_group
  build_table_prisma_query-IsRegistered input tree query parsed e =
      let (sorts, _, rest) = bind-eq-ok (parse_sorts p input.sorts) _ (rw parsed at e) in
      let (order, _, more) = bind-eq-ok (compile_sorts fields sorts) _ rest in
      let (o, eo, _) = bind-eq-ok (compile_filters p now fields (some tree)) _ more in
      let (w, ew, _) = bind-eq-ok (compile_group p now fields tree) _ eo in
      let (ws, es, _) = bind-eq-ok (compile_nodes p now fields tree.conditions) _ ew in
      compile_nodes-IsRegistered tree.conditions es
