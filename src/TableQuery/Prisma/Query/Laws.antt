-- ===== src/TableQuery/Prisma/Query/Laws.antt =====
-- A Prisma query tests and sorts by the columns of the whitelist alone.
use wbme.Common.{
  some-injective, ℕ, ◌≡◌, refl, ap, subst, ◌∙◌, ◌⊎◌, Option, none, some, Option-cases, Bool, true,
  Bool-cases, inl, inr, List, [], ◌∷◌, ◌++◌, All, All-append, any, String, str_eq, eq_refl, arith,
  ok, bind-eq-ok, ok-injective,
}
use wbme.TableQuery.{
  TableFilterCondition, TableFilterTreeNode, TableFilterTreeNodes, leaf, group, no_nodes, node,
  TableFilterTreeGroup, Direction, desc, Sort, TableQueryInput, Platform,
}
use wbme.TableQuery.Filters.{parse_filters, parse_sorts}
use wbme.TableQuery.Context.{TableConditionContext, field_definition, context_of}
use wbme.TableQuery.Prisma.{
  PrismaWhere, PrismaWheres, TablePrismaField, PrismaColumns, one_column, columns,
}
use wbme.TableQuery.Prisma.Query.{
  column_list, compile_condition, compile_node, compile_nodes, compile_group, compile_filters,
  after_custom, with_custom, compile_sorts, sort_column, with_id, build_table_prisma_query,
  TablePrismaQuery,
}
use wbme.TableQuery.Prisma.Columns.{Columns, ColumnsEach, compile_standard-Columns}

abbrev columns_of : Option PrismaColumns → List String
columns_of none = []
columns_of (some cols) = column_list cols

abbrev is_among : List String → String → Bool
is_among fs f = any (λ g. str_eq g f) fs

is_among-cons :
    (g : String) (fs gs : List String)
    → All (λ f. is_among fs f ≡ true) gs
    → All (λ f. is_among (g ∷ fs) f ≡ true) gs
is_among-cons g fs [] h = tt
is_among-cons g fs (f ∷ gs) h = (ground (arith, h.0), is_among-cons g fs gs h.1)

is_among-All : (fs : List String) → All (λ f. is_among fs f ≡ true) fs
is_among-All [] = tt
is_among-All (f ∷ fs) = (ground (arith, eq_refl f), is_among-cons f fs fs (is_among-All fs))

module _ (fields : List (String × TablePrismaField)) where
  -- A column that the whitelist maps some field to.
  abbrev pub IsMapped : String → Type 0
  IsMapped f =
      (name : String) × (d : TablePrismaField) × (field_definition name fields ≡ ok d)
      × (is_among (columns_of d.prisma_field) f ≡ true)

  IsMapped-each :
      (name : String) (d : TablePrismaField) (all_columns fs : List String)
      → field_definition name fields ≡ ok d
      → columns_of d.prisma_field ≡ all_columns
      → All (λ f. is_among all_columns f ≡ true) fs
      → All IsMapped fs
  IsMapped-each name d all_columns [] found same h = tt
  IsMapped-each name d all_columns (f ∷ fs) found same h =
      ((name, d, found, rw same h.0), IsMapped-each name d all_columns fs found same h.1)

  IsMapped-list :
      (name : String) (d : TablePrismaField) (cols : PrismaColumns)
      → field_definition name fields ≡ ok d
      → d.prisma_field ≡ some cols
      → All IsMapped (column_list cols)
  IsMapped-list name d cols found there =
      IsMapped-each name d (column_list cols) (column_list cols) found (ap columns_of there)
        (is_among-All (column_list cols))

  -- Custom predicates test such columns only, too.
  abbrev pub CustomIsMapped : Type 0
  CustomIsMapped =
      (name : String) (d : TablePrismaField) (custom : TableConditionContext → Option PrismaWhere)
      (ctx : TableConditionContext) (w : PrismaWhere)
      → field_definition name fields ≡ ok d
      → d.compile ≡ some custom
      → custom ctx ≡ some w
      → Columns IsMapped w

  module _ (p : Platform) (now : ℕ) (safe : CustomIsMapped) where
    after_custom-Columns :
        (c : TableFilterCondition) (d : TablePrismaField) (o : Option PrismaWhere) {w : PrismaWhere}
        → field_definition c.field fields ≡ ok d
        → ((v : PrismaWhere) → o ≡ some v → Columns IsMapped v)
        → after_custom p now c d o ≡ ok w
        → Columns IsMapped w
    after_custom-Columns c d (some v) found h e =
        subst (Columns IsMapped) (ok-injective e) (h v refl)
    after_custom-Columns c d none found h e = elim (Option-cases d.prisma_field) [
      | inl no_column ↦ absurd (cc (rw no_column at e))
      | inr (cols, there) ↦
          compile_standard-Columns IsMapped (column_list cols)
            (IsMapped-list c.field d cols found there) c p now d.type (rw there at e)
    ]

    with_custom-Columns :
        (c : TableFilterCondition) (d : TablePrismaField)
        (o : Option (TableConditionContext → Option PrismaWhere)) {w : PrismaWhere}
        → field_definition c.field fields ≡ ok d
        → d.compile ≡ o
        → with_custom p now c d o ≡ ok w
        → Columns IsMapped w
    with_custom-Columns c d none found same e =
        after_custom-Columns c d none found (λ v h. absurd (cc h)) e
    with_custom-Columns c d (some custom) found same e =
        let (ctx, _, last) = bind-eq-ok (context_of p c d.type) _ e in
        after_custom-Columns c d (custom ctx) found
          (λ v h. safe c.field d custom ctx v found same h) last

    mutual
      unfolding compile_node compile_nodes compile_condition Columns

      compile_node-Columns :
          (n : TableFilterTreeNode) {w : PrismaWhere}
          → compile_node p now fields n ≡ ok w
          → Columns IsMapped w
      compile_node-Columns (leaf c) e =
          let (d, found, last) = bind-eq-ok (field_definition c.field fields) _ e in
          with_custom-Columns c d d.compile found refl last
      compile_node-Columns (group logic ns) e =
          let (ws, ew, last) = bind-eq-ok (compile_nodes p now fields ns) _ e in
          subst (Columns IsMapped) (ok-injective last) (compile_nodes-Columns ns ew)

      compile_nodes-Columns :
          (ns : TableFilterTreeNodes) {ws : PrismaWheres}
          → compile_nodes p now fields ns ≡ ok ws
          → ColumnsEach IsMapped ws
      compile_nodes-Columns no_nodes e = subst (ColumnsEach IsMapped) (ok-injective e) tt
      compile_nodes-Columns (node n ns) e =
          let (w, ew, rest) = bind-eq-ok (compile_node p now fields n) _ e in
          let (ws, es, last) = bind-eq-ok (compile_nodes p now fields ns) _ rest in
          subst (ColumnsEach IsMapped) (ok-injective last)
            (compile_node-Columns n ew, compile_nodes-Columns ns es)

    compile_filters-Columns :
        (filters : Option TableFilterTreeGroup) {o : Option PrismaWhere} (w : PrismaWhere)
        → compile_filters p now fields filters ≡ ok o
        → o ≡ some w
        → Columns IsMapped w
    unfolding compile_group Columns compile_nodes
    compile_filters-Columns none w e s = absurd (cc (ok-injective e, s))
    compile_filters-Columns (some tree) w e s =
        let (v, ev, last) = bind-eq-ok (compile_group p now fields tree) _ e in
        let (ws, ew, end) = bind-eq-ok (compile_nodes p now fields tree.conditions) _ ev in
        subst (Columns IsMapped) (ok-injective end ∙ some-injective (ok-injective last ∙ s))
          (compile_nodes-Columns tree.conditions ew)

  sort_column-IsMapped :
      (name : String) (d : TablePrismaField) (o : Option PrismaColumns) {g : String}
      → field_definition name fields ≡ ok d
      → d.prisma_field ≡ o
      → sort_column name o ≡ ok g
      → IsMapped g
  sort_column-IsMapped name d (some (one_column f)) found same e =
      subst IsMapped (ok-injective e) (name, d, found, rw same (ground (arith, eq_refl f)))
  sort_column-IsMapped name d (some (columns fs)) found same e = absurd (cc e)
  sort_column-IsMapped name d none found same e = absurd (cc e)

  compile_sorts-IsMapped :
      (sorts : List Sort) {order : List (String × Direction)}
      → compile_sorts fields sorts ≡ ok order
      → All (λ o. IsMapped o.0) order
  unfolding compile_sorts
  compile_sorts-IsMapped [] e = subst (All (λ o. IsMapped o.0)) (ok-injective e) tt
  compile_sorts-IsMapped (s ∷ sorts) e =
      let (d, found, rest) = bind-eq-ok (field_definition s.field fields) _ e in
      let (g, eg, more) = bind-eq-ok (sort_column s.field d.prisma_field) _ rest in
      let (gs, es, last) = bind-eq-ok (compile_sorts fields sorts) _ more in
      subst (All (λ o. IsMapped o.0)) (ok-injective last) (
        sort_column-IsMapped s.field d d.prisma_field found refl eg,
        compile_sorts-IsMapped sorts es,
      )

  abbrev pub IsSortable : String × Direction → Type 0
  IsSortable o = IsMapped o.0 ⊎ (o.0 ≡ "id")

  All-IsSortable :
      (order : List (String × Direction)) → All (λ o. IsMapped o.0) order → All IsSortable order
  All-IsSortable [] h = tt
  All-IsSortable (o ∷ order) h = (inl h.0, All-IsSortable order h.1)

  with_id-IsSortable :
      (order : List (String × Direction)) → All IsSortable order → All IsSortable (with_id order)
  unfolding with_id
  with_id-IsSortable [] h = tt
  with_id-IsSortable (o ∷ order) h = elim (Bool-cases (any (λ t. str_eq t.0 "id") (o ∷ order))) [
    | inl there ↦ rw there h
    | inr absent ↦
        rw absent (All-append IsSortable (o ∷ order) (("id", desc) ∷ []) h (inr refl, tt))
  ]

abbrev has_id : List (String × Direction) → Bool
has_id order = any (λ t. str_eq t.0 "id") order

has_id-append : (order : List (String × Direction)) → has_id (order ++ ("id", desc) ∷ []) ≡ true
has_id-append [] = refl
has_id-append (o ∷ order) = ground (arith, has_id-append order)

with_id-has_id :
    (order : List (String × Direction)) → (with_id order ≡ []) ⊎ (has_id (with_id order) ≡ true)
unfolding with_id
with_id-has_id [] = inl refl
with_id-has_id (o ∷ order) = elim (Bool-cases (has_id (o ∷ order))) [
  | inl there ↦ inr (rw (there, there) refl)
  | inr absent ↦ inr (rw absent (has_id-append (o ∷ order)))
]

-- The steps of a build that succeeds.
build-steps :
    (p : Platform) (now : ℕ) (fields : List (String × TablePrismaField)) (input : TableQueryInput)
    (query : TablePrismaQuery)
    → build_table_prisma_query p now fields input ≡ ok query
    → (filters : Option TableFilterTreeGroup) × (sorts : List Sort) × (order : List
        (String × Direction))
      × (compile_sorts fields sorts ≡ ok order)
      × (compile_filters p now fields filters ≡ ok query.conditions)
      × (with_id order ≡ query.order)
unfolding build_table_prisma_query
build-steps p now fields input query e =
    let (filters, _, rest) = bind-eq-ok (parse_filters p input.filters) _ e in
    let (sorts, _, more) = bind-eq-ok (parse_sorts p input.sorts) _ rest in
    let (order, eo, end) = bind-eq-ok (compile_sorts fields sorts) _ more in
    let (w, ew, last) = bind-eq-ok (compile_filters p now fields filters) _ end in
    (
      filters,
      sorts,
      order,
      eo,
      ew ∙ ap (λ q. ok q.conditions) (ok-injective last),
      ap (λ q. q.order) (ok-injective last),
    )

-- Whatever filters and sorts a client sends, a compiled query tests only columns that the whitelist
-- maps a field to, and sorts by such columns and the id: if the custom predicates test such columns.
pub build_table_prisma_query-IsMapped :
    (p : Platform) (now : ℕ) (fields : List (String × TablePrismaField)) (input : TableQueryInput)
    (query : TablePrismaQuery)
    → CustomIsMapped fields
    → build_table_prisma_query p now fields input ≡ ok query
    → ((w : PrismaWhere) → query.conditions ≡ some w → Columns (IsMapped fields) w)
      × All (IsSortable fields) query.order
build_table_prisma_query-IsMapped p now fields input query safe e =
    let (filters, sorts, order, eo, ew, eq) = build-steps p now fields input query e in
    (
      (λ w h. compile_filters-Columns fields p now safe filters w ew h),
      subst (All (IsSortable fields)) eq (
          with_id-IsSortable fields order
            (All-IsSortable fields order (compile_sorts-IsMapped fields sorts eo))),
    )

-- A query that sorts at all sorts by the id among others.
pub build_table_prisma_query-has_id :
    (p : Platform) (now : ℕ) (fields : List (String × TablePrismaField)) (input : TableQueryInput)
    (query : TablePrismaQuery)
    → build_table_prisma_query p now fields input ≡ ok query
    → (query.order ≡ []) ⊎ (any (λ t. str_eq t.0 "id") query.order ≡ true)
build_table_prisma_query-has_id p now fields input query e =
    let (filters, sorts, order, eo, ew, eq) = build-steps p now fields input query e in
    subst (λ os. (os ≡ []) ⊎ (has_id os ≡ true)) eq (with_id-has_id order)
