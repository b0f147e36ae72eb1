-- ===== src/TableQuery/Sql/Query/Laws.antt =====
-- The placeholders of a whole filter.
use wbme.Common.{
  ℕ, zero, suc, ◌+◌, ◌≡◌, refl, sym, ap, ◌∙◌, subst, List, [], ◌∷◌, ◌++◌, arith, length,
  length-append, ok, bind-eq-ok, ok-injective, String, Option, none, some,
}
use mathlib.Core.List.{append_assoc, append-nil}
use wbme.TableQuery.{
  TableFilterCondition, Logic, and, or, TableFilterTreeNode, TableFilterTreeNodes, leaf, group,
  no_nodes, node, TableFilterTreeGroup, Scalar, Platform, TableQueryInput,
}
use wbme.TableQuery.ScalarValue.{operator_of}
use wbme.TableQuery.Context.{field_definition, context_of, TableConditionContext}
use wbme.TableQuery.Filters.{parse_filters, parse_sorts}
use wbme.TableQuery.Sql.{
  Piece, sql, placeholder, Registered, TableSqlField, column, custom, custom_result,
}
use wbme.TableQuery.Sql.Query.{
  compile_field, compile_sql_condition, compile_node, compile_nodes, joined, logic_text,
  compile_filters, build_table_sql_query, TableSqlQuery, compile_sorts,
}
use wbme.TableQuery.Sql.Numbering.{
  uses, numbers_after, IsNumbered, IsGapless, compile_column-IsNumbered,
}

uses-append : (ps qs : List Piece) → uses (ps ++ qs) ≡ uses ps ++ uses qs
unfolding uses
uses-append [] qs = refl
uses-append (sql s ∷ ps) qs = uses-append ps qs
uses-append (placeholder n ∷ ps) qs = ap (λ ns. n ∷ ns) (uses-append ps qs)

suc_add : (m n : ℕ) → suc m + n ≡ suc (m + n)
suc_add m n = omega arith

zero_add : (n : ℕ) → 0 + n ≡ n
zero_add n = omega arith

add_zero : (n : ℕ) → n + 0 ≡ n
add_zero n = omega arith

add_suc : (k m : ℕ) → k + suc m ≡ suc k + m
add_suc k m = omega arith

numbers_after-add :
    (k m n : ℕ) → numbers_after k (m + n) ≡ numbers_after k m ++ numbers_after (k + m) n
unfolding numbers_after
numbers_after-add k zero n = rw (zero_add n, add_zero k) refl
numbers_after-add k (suc m) n =
    rw (suc_add m n, add_suc k m) (ap (λ ns. suc k ∷ ns) (numbers_after-add (suc k) m n))

IsNumbered-trans :
    (offset : ℕ) (params : List Scalar) (ps qs : List Piece) (middle last : List Scalar)
    → IsNumbered offset params (ps, middle)
    → IsNumbered offset middle (qs, last)
    → IsNumbered offset params (ps ++ qs, last)
unfolding IsNumbered
IsNumbered-trans offset params ps qs middle last (new, em, eu) (more, el, ev) = (
  new ++ more,
  el ∙ ap (λ l. l ++ more) em ∙ append_assoc params new more,
  uses-append ps qs
      ∙ ap (λ ns. ns ++ uses qs) eu
      ∙ ap (λ ns. numbers_after (offset + length params) (length new) ++ ns)
          (ev
            ∙ ap (λ j. numbers_after j (length more))
                (ap (λ l. offset + length l) em ∙ omega (arith, length-append params new)))
      ∙ sym (numbers_after-add (offset + length params) (length new) (length more))
      ∙ ap (numbers_after (offset + length params)) (sym (length-append new more)),
)

in_brackets :
    (offset : ℕ) (params : List Scalar) (r : Registered)
    → IsNumbered offset params r
    → IsNumbered offset params (sql "(" ∷ r.0 ++ sql ")" ∷ [], r.1)
unfolding IsNumbered uses
in_brackets offset params r (new, e, u) =
    (new, e, uses-append r.0 (sql ")" ∷ []) ∙ append-nil (uses r.0) ∙ u)

nothing_new : (offset : ℕ) (params : List Scalar) → IsNumbered offset params ([], params)
unfolding IsNumbered uses numbers_after
nothing_new offset params = ([], sym (append-nil params), refl)

logic_text-IsNumbered :
    (offset : ℕ) (p : Platform) (now : ℕ) (fields : List (String × TableSqlField)) (logic : Logic)
    (params : List Scalar) (ps qs : List Piece) (middle last : List Scalar)
    → IsNumbered offset params (ps, middle)
    → IsNumbered offset middle (qs, last)
    → IsNumbered offset params (ps ++ logic_text offset p now fields logic ∷ qs, last)
unfolding IsNumbered uses
logic_text-IsNumbered offset p now fields and params ps qs middle last h (more, em, eu) =
    IsNumbered-trans offset params ps (sql " AND " ∷ qs) middle last h (more, em, eu)
logic_text-IsNumbered offset p now fields or params ps qs middle last h (more, em, eu) =
    IsNumbered-trans offset params ps (sql " OR " ∷ qs) middle last h (more, em, eu)

IsNumbered-joined :
    (offset : ℕ) (p : Platform) (now : ℕ) (fields : List (String × TableSqlField)) (logic : Logic)
    (ns : TableFilterTreeNodes) (params : List Scalar) (r s : Registered)
    → compile_nodes offset p now fields logic ns r.1 ≡ ok s
    → IsNumbered offset params r
    → IsNumbered offset r.1 s
    → IsNumbered offset params (joined offset p now fields logic r.0 ns s.0, s.1)
unfolding compile_nodes
IsNumbered-joined offset p now fields logic no_nodes params r s e h k =
    subst (λ l. IsNumbered offset params (r.0, l)) (ap (λ t. t.1) (ok-injective e)) h
IsNumbered-joined offset p now fields logic (node n ns) params r s e h k =
    logic_text-IsNumbered offset p now fields logic params r.0 s.0 r.1 s.1 h k

module _ (offset : ℕ) (fields : List (String × TableSqlField)) where
  -- A custom predicate that numbers its own parameters in the same way.
  abbrev pub IsOrderly : TableFilterCondition → TableSqlField → Type 0
  IsOrderly c (column col type) = IsGapless offset col c type (operator_of c)
  IsOrderly c (custom type predicate) =
      (ctx : TableConditionContext) (params : List Scalar) (ps : List Piece)
      (after_it : List Scalar)
      → predicate ctx params ≡ (some ps, after_it)
      → IsNumbered offset params (ps, after_it)

  abbrev OrderlyCondition : TableFilterCondition → Type 0
  OrderlyCondition c = (d : TableSqlField) → field_definition c.field fields ≡ ok d → IsOrderly c d

  unfoldable mutual
    pub OrderlyNode : TableFilterTreeNode → Type 0
    OrderlyNode (leaf c) = OrderlyCondition c
    OrderlyNode (group logic ns) = OrderlyNodes ns

    pub OrderlyNodes : TableFilterTreeNodes → Type 0
    OrderlyNodes no_nodes = Unit
    OrderlyNodes (node n ns) = OrderlyNode n × OrderlyNodes ns

  module _ (p : Platform) (now : ℕ) where
    custom_result-IsNumbered :
        (c : TableFilterCondition) (params : List Scalar)
        (result : Option (List Piece) × List Scalar) {r : Registered}
        → ((ps : List Piece) (after_it : List Scalar)
            → result ≡ (some ps, after_it)
            → IsNumbered offset params (ps, after_it))
        → custom_result offset "" c result ≡ ok r
        → IsNumbered offset params r
    custom_result-IsNumbered c params (none, after_it) h e = absurd (cc e)
    custom_result-IsNumbered c params (some ps, after_it) h e =
        subst (IsNumbered offset params) (ok-injective e) (h ps after_it refl)

    compile_field-IsNumbered :
        (c : TableFilterCondition) (d : TableSqlField) (params : List Scalar) {r : Registered}
        → IsOrderly c d
        → compile_field offset p now c d params ≡ ok r
        → IsNumbered offset params r
    compile_field-IsNumbered c (column col type) params g e =
        compile_column-IsNumbered offset col c p now type params g e
    compile_field-IsNumbered c (custom type predicate) params g e =
        let (ctx, ec, last) = bind-eq-ok (context_of p c type) _ e in
        custom_result-IsNumbered c params (predicate ctx params) (g ctx params) last

    mutual
      unfolding compile_node compile_nodes compile_sql_condition OrderlyNode OrderlyNodes

      compile_node-IsNumbered :
          (n : TableFilterTreeNode) (params : List Scalar) {r : Registered}
          → OrderlyNode n
          → compile_node offset p now fields n params ≡ ok r
          → IsNumbered offset params r
      compile_node-IsNumbered (leaf c) params o e =
          let (d, ed, last) = bind-eq-ok (field_definition c.field fields) _ e in
          compile_field-IsNumbered c d params (o d ed) last
      compile_node-IsNumbered (group logic ns) params o e =
          let (r, er, last) = bind-eq-ok (compile_nodes offset p now fields logic ns params) _ e in
          subst (IsNumbered offset params) (ok-injective last)
            (in_brackets offset params r (compile_nodes-IsNumbered logic ns params o er))

      compile_nodes-IsNumbered :
          (logic : Logic) (ns : TableFilterTreeNodes) (params : List Scalar) {r : Registered}
          → OrderlyNodes ns
          → compile_nodes offset p now fields logic ns params ≡ ok r
          → IsNumbered offset params r
      compile_nodes-IsNumbered logic no_nodes params o e =
          subst (IsNumbered offset params) (ok-injective e) (nothing_new offset params)
      compile_nodes-IsNumbered logic (node n ns) params o e =
          let (r, er, rest) = bind-eq-ok (compile_node offset p now fields n params) _ e in
          let (s, es, last) = bind-eq-ok (compile_nodes offset p now fields logic ns r.1) _ rest in
          subst (IsNumbered offset params) (ok-injective last) (
            IsNumbered-joined offset p now fields logic ns params r s es
              (compile_node-IsNumbered n params o.0 er)
              (compile_nodes-IsNumbered logic ns r.1 o.1 es))

    compile_filters-IsNumbered :
        (tree : TableFilterTreeGroup) {r : Option (List Piece) × List Scalar}
        → OrderlyNodes tree.conditions
        → compile_filters offset p now fields (some tree) ≡ ok r
        → (ps : List Piece) × (r.0 ≡ some ps) × IsNumbered offset [] (ps, r.1)
    unfolding OrderlyNode
    compile_filters-IsNumbered tree o e =
        let (r, er, last) =
          bind-eq-ok (compile_node offset p now fields (group tree.logic tree.conditions) []) _ e in
        subst (λ q. (ps : List Piece) × (q.0 ≡ some ps) × IsNumbered offset [] (ps, q.1))
          (ok-injective last)
          (r.0, refl, compile_node-IsNumbered (group tree.logic tree.conditions) [] o er)

-- The text of a compiled filter names exactly the parameters that are returned with it, from the one
-- behind the offset on, once each and in order: if no condition compares a date by AFTER, and custom
-- predicates number their parameters in this way.
pub build_table_sql_query-numbered :
    (p : Platform) (now : ℕ) (fields : List (String × TableSqlField)) (offset : ℕ)
    (input : TableQueryInput) (tree : TableFilterTreeGroup) (query : TableSqlQuery)
    → parse_filters p input.filters ≡ ok (some tree)
    → OrderlyNodes offset fields tree.conditions
    → build_table_sql_query p now fields offset input ≡ ok query
    → (ps : List Piece) × (query.where_sql ≡ some ps)
      × (uses ps ≡ numbers_after offset (length query.params))
unfolding build_table_sql_query IsNumbered
build_table_sql_query-numbered p now fields offset input tree query parsed orderly e =
    let (sorts, es, rest) = bind-eq-ok (parse_sorts p input.sorts) _ (rw parsed at e) in
    let (r, er, more) = bind-eq-ok (compile_filters offset p now fields (some tree)) _ rest in
    let (order, eo, last) = bind-eq-ok (compile_sorts fields sorts) _ more in
    let (ps, ep, (new, en, eu)) = compile_filters-IsNumbered offset fields p now tree orderly er in
    (
      ps,
      ap (λ q. q.where_sql) (sym (ok-injective last)) ∙ ep,
      eu
          ∙ ap (λ k. numbers_after k (length new)) (add_zero offset)
          ∙ ap (λ l. numbers_after offset (length l)) (sym en)
          ∙ ap (λ q. numbers_after offset (length q.params)) (ok-injective last),
    )
