-- ===== src/TableQuery/Prisma/Columns.antt =====
-- Which columns a compiled condition tests: those that its field is mapped to.
use wbme.Common.{
  ℕ, ◌≡◌, subst, Bool, true, false, Bool-cases, inl, inr, List, [], ◌∷◌, map, All, String, Result,
  ok, bind-eq-ok, ok-injective,
}
use wbme.TableQuery.{
  TableOperator, equals, not_equals, contains, not_contains, greater_than, greater_than_or_equal,
  less_than, less_than_or_equal, before, after, between, starts_with, ends_with,
  TableFilterCondition, Logic, and, or, FieldType, Scalar, TableQueryError, Platform,
}
use wbme.TableQuery.ScalarValue.{operator_of, is_valueless, is_relative_date, scalar_value}
use wbme.TableQuery.Context.{date_range_for, range_end}
use wbme.TableQuery.Prisma.{
  PrismaTest, PrismaWhere, PrismaWheres, column, combine, negate, fragment, no_wheres, where_also,
  wheres, for_each_field, valueless_filter, empty_text, filled_text, is_is_empty, text_filter,
  enum_filter, number_filter, date_filter, value_filter, outside, after_date, compile_standard,
}

-- A property of every column that a query tests.
unfoldable mutual
  pub Columns : (String → Type 0) → PrismaWhere → Type 0
  Columns P (column f t) = P f
  Columns P (combine logic ws) = ColumnsEach P ws
  Columns P (negate w) = Columns P w
  Columns P (fragment s) = Unit

  pub ColumnsEach : (String → Type 0) → PrismaWheres → Type 0
  ColumnsEach P no_wheres = Unit
  ColumnsEach P (where_also w ws) = Columns P w × ColumnsEach P ws

module _ (P : String → Type 0) where
  wheres-Columns :
      (make : String → PrismaWhere) (fs : List String)
      → ((f : String) → P f → Columns P (make f))
      → All P fs
      → ColumnsEach P (wheres (map make fs))
  unfolding Columns wheres
  wheres-Columns make [] h a = tt
  wheres-Columns make (f ∷ fs) h a = (h f a.0, wheres-Columns make fs h a.1)

  for_each_field-Columns :
      (fs : List String) (make : String → PrismaWhere) (logic : Logic)
      → ((f : String) → P f → Columns P (make f))
      → All P fs
      → Columns P (for_each_field fs make logic)
  unfolding Columns for_each_field wheres
  for_each_field-Columns [] make logic h a = tt
  for_each_field-Columns (f ∷ []) make logic h a = h f a.0
  for_each_field-Columns (f ∷ g ∷ fs) make logic h a = wheres-Columns make (f ∷ g ∷ fs) h a

  module _ (fs : List String) (mapped : All P fs) (c : TableFilterCondition) where
    each-Columns :
        (t : PrismaTest) (logic : Logic) {w : PrismaWhere}
        → ◌≡◌ {A = Result TableQueryError PrismaWhere}
            (ok (for_each_field fs (λ f. column f t) logic))
            (ok w)
        → Columns P w
    unfolding Columns
    each-Columns t logic e =
        subst (Columns P) (ok-injective e)
          (for_each_field-Columns fs (λ f. column f t) logic (λ f h. h) mapped)

    text_filter-Columns :
        (o : TableOperator) (v : Scalar) {w : PrismaWhere}
        → text_filter fs c o v ≡ ok w
        → Columns P w
    text_filter-Columns equals v e = each-Columns _ or e
    text_filter-Columns not_equals v e = each-Columns _ and e
    text_filter-Columns contains v e = each-Columns _ or e
    text_filter-Columns not_contains v e = each-Columns _ and e
    text_filter-Columns starts_with v e = each-Columns _ or e
    text_filter-Columns ends_with v e = each-Columns _ or e
    text_filter-Columns _ v e = absurd (cc e)

    enum_filter-Columns :
        (o : TableOperator) (v : Scalar) {w : PrismaWhere}
        → enum_filter fs c o v ≡ ok w
        → Columns P w
    enum_filter-Columns equals v e = each-Columns _ or e
    enum_filter-Columns not_equals v e = each-Columns _ or e
    enum_filter-Columns _ v e = absurd (cc e)

    number_filter-Columns :
        (p : Platform) (type : FieldType) (o : TableOperator) (v : Scalar) {w : PrismaWhere}
        → number_filter fs c p type o v ≡ ok w
        → Columns P w
    number_filter-Columns p type equals v e = each-Columns _ or e
    number_filter-Columns p type not_equals v e = each-Columns _ or e
    number_filter-Columns p type greater_than v e = each-Columns _ or e
    number_filter-Columns p type greater_than_or_equal v e = each-Columns _ or e
    number_filter-Columns p type less_than v e = each-Columns _ or e
    number_filter-Columns p type less_than_or_equal v e = each-Columns _ or e
    number_filter-Columns p type between v e =
        let (end, _, last) = bind-eq-ok (range_end p c type v) _ e in each-Columns _ or last
    number_filter-Columns p type _ v e = absurd (cc e)

    date_filter-Columns :
        (p : Platform) (o : TableOperator) (v : Scalar) {w : PrismaWhere}
        → date_filter fs c p o v ≡ ok w
        → Columns P w
    unfolding Columns
    date_filter-Columns p equals v e = each-Columns _ or e
    date_filter-Columns p not_equals v e = subst (Columns P) (ok-injective e) (
        for_each_field-Columns fs (outside fs c v (after_date fs c v)) or (λ f h. (h, (h, tt)))
          mapped)
    date_filter-Columns p before v e = each-Columns _ or e
    date_filter-Columns p after v e = each-Columns _ or e
    date_filter-Columns p between v e =
        let (end, _, last) = bind-eq-ok (range_end p c FieldType.date v) _ e in
        each-Columns _ or last
    date_filter-Columns p _ v e = absurd (cc e)

    value_filter-Columns :
        (p : Platform) (type : FieldType) (o : TableOperator) (v : Scalar) {w : PrismaWhere}
        → value_filter fs c p type o v ≡ ok w
        → Columns P w
    value_filter-Columns p FieldType.text o v e = text_filter-Columns o v e
    value_filter-Columns p FieldType.enum o v e = enum_filter-Columns o v e
    value_filter-Columns p FieldType.number o v e = number_filter-Columns p FieldType.number o v e
    value_filter-Columns p FieldType.time o v e = number_filter-Columns p FieldType.time o v e
    value_filter-Columns p FieldType.date o v e = date_filter-Columns p o v e

    valueless_filter-Columns :
        (type : FieldType) (empty : Bool) → Columns P (valueless_filter fs type empty)
    unfolding Columns
    valueless_filter-Columns FieldType.text true =
        for_each_field-Columns fs empty_text and (λ f h. (h, (h, tt))) mapped
    valueless_filter-Columns FieldType.text false =
        for_each_field-Columns fs filled_text and (λ f h. (h, (h, tt))) mapped
    valueless_filter-Columns _ true = for_each_field-Columns fs _ or (λ f h. h) mapped
    valueless_filter-Columns _ false = for_each_field-Columns fs _ or (λ f h. h) mapped

    pub compile_standard-Columns :
        (p : Platform) (now : ℕ) (type : FieldType) {w : PrismaWhere}
        → compile_standard fs c p now type ≡ ok w
        → Columns P w
    unfolding compile_standard
    compile_standard-Columns p now type e = elim (Bool-cases (is_valueless (operator_of c))) [
      | inl vl ↦
          subst (Columns P) (ok-injective (rw vl at e))
            (valueless_filter-Columns type (is_is_empty (operator_of c)))
      | inr vl ↦ elim (Bool-cases (is_relative_date (operator_of c))) [
        | inl rel ↦
            let (r, _, last) = bind-eq-ok (date_range_for p now c type) _ (rw (vl, rel) at e) in
            each-Columns _ or last
        | inr rel ↦
            let (v, _, last) = bind-eq-ok (scalar_value p c.value type) _ (rw (vl, rel) at e) in
            value_filter-Columns p type (operator_of c) v last
      ]
    ]
