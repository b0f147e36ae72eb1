-- ===== src/TableQuery/Sql/Numbering.antt =====
-- The placeholders in a text of SQL and the parameters behind them.
use wbme.Common.{
  ℕ, zero, suc, ◌+◌, ◌≡◌, refl, sym, ap, subst, List, [], ◌∷◌, ◌++◌, arith, length, length-append,
  ok, bind-eq-ok, ok-injective, String, ◌≢◌, Bool-cases, inl, inr,
}
use mathlib.Core.List.{append-nil}
use wbme.TableQuery.{
  TableOperator, after, equals, not_equals, contains, not_contains, before, between, is_empty,
  greater_than, greater_than_or_equal, less_than, less_than_or_equal, starts_with, ends_with,
  TableFilterCondition, FieldType, Scalar, Platform,
}
use wbme.TableQuery.Sql.{
  Piece, sql, placeholder, Registered, test, two_tests, text_sql, enum_sql, number_sql, date_sql,
  value_sql, valueless_sql, compile_column, after_date,
}
use wbme.TableQuery.ScalarValue.{operator_of, is_valueless, is_relative_date, scalar_value}
use wbme.TableQuery.Context.{date_range_for, range_end}

-- The placeholders of a text, in order.
unfoldable pub uses : List Piece → List ℕ
uses [] = []
uses (sql s ∷ ps) = uses ps
uses (placeholder n ∷ ps) = n ∷ uses ps

-- The n numbers that follow k.
unfoldable pub numbers_after : ℕ → ℕ → List ℕ
numbers_after k zero = []
numbers_after k (suc n) = suc k ∷ numbers_after (suc k) n

-- The text names exactly the parameters that it has registered, once each and in order.
unfoldable pub IsNumbered : ℕ → List Scalar → Registered → Type 0
IsNumbered offset params r =
    (new : List Scalar) × (r.1 ≡ params ++ new)
    × (uses r.0 ≡ numbers_after (offset + length params) (length new))

two_numbers : {k : ℕ} (a b : ℕ) → a ≡ suc k → b ≡ suc (suc k) → a ∷ b ∷ [] ≡ numbers_after k 2
unfolding numbers_after
two_numbers a b e f = rw (e, f) refl

module _ (offset : ℕ) (col : String) (c : TableFilterCondition) where
  test-IsNumbered :
      (a b : String) (v : Scalar) (params : List Scalar) {r : Registered}
      → test offset col c a b v params ≡ ok r
      → IsNumbered offset params r
  unfolding IsNumbered uses numbers_after
  test-IsNumbered a b v params e =
      subst (IsNumbered offset params) (ok-injective e)
        (v ∷ [], refl, ap (λ n. n ∷ []) (omega arith))

  text_sql-IsNumbered :
      (o : TableOperator) (v : Scalar) (params : List Scalar) {r : Registered}
      → text_sql offset col c o v params ≡ ok r
      → IsNumbered offset params r
  text_sql-IsNumbered equals v params e = test-IsNumbered _ _ v params e
  text_sql-IsNumbered not_equals v params e = test-IsNumbered _ _ v params e
  text_sql-IsNumbered contains v params e = test-IsNumbered _ _ v params e
  text_sql-IsNumbered not_contains v params e = test-IsNumbered _ _ v params e
  text_sql-IsNumbered starts_with v params e = test-IsNumbered _ _ v params e
  text_sql-IsNumbered ends_with v params e = test-IsNumbered _ _ v params e
  text_sql-IsNumbered _ v params e = absurd (cc e)

  enum_sql-IsNumbered :
      (o : TableOperator) (v : Scalar) (params : List Scalar) {r : Registered}
      → enum_sql offset col c o v params ≡ ok r
      → IsNumbered offset params r
  enum_sql-IsNumbered equals v params e = test-IsNumbered _ _ v params e
  enum_sql-IsNumbered not_equals v params e = test-IsNumbered _ _ v params e
  enum_sql-IsNumbered _ v params e = absurd (cc e)

  two_tests-IsNumbered :
      (a b j d z : String) (v w : Scalar) (params : List Scalar)
      → IsNumbered offset params (two_tests offset col c a b j d z v w params)
  unfolding IsNumbered uses numbers_after
  two_tests-IsNumbered a b j d z v w params = (
    v ∷ w ∷ [],
    refl,
    two_numbers _ _ (omega arith) (omega (arith, length-append params (v ∷ []))),
  )

  number_sql-IsNumbered :
      (p : Platform) (type : FieldType) (o : TableOperator) (v : Scalar) (params : List Scalar)
      {r : Registered}
      → number_sql offset col c p type o v params ≡ ok r
      → IsNumbered offset params r
  number_sql-IsNumbered p type equals v params e = test-IsNumbered _ _ v params e
  number_sql-IsNumbered p type not_equals v params e = test-IsNumbered _ _ v params e
  number_sql-IsNumbered p type greater_than v params e = test-IsNumbered _ _ v params e
  number_sql-IsNumbered p type greater_than_or_equal v params e = test-IsNumbered _ _ v params e
  number_sql-IsNumbered p type less_than v params e = test-IsNumbered _ _ v params e
  number_sql-IsNumbered p type less_than_or_equal v params e = test-IsNumbered _ _ v params e
  number_sql-IsNumbered p type between v params e =
      let (w, ew, last) = bind-eq-ok (range_end p c type v) _ e in
      subst (IsNumbered offset params) (ok-injective last)
        (two_tests-IsNumbered "" " >= " " AND " " <= " "" v w params)
  number_sql-IsNumbered p type _ v params e = absurd (cc e)

  -- AFTER is the operator that registers a parameter without a place in the text.
  date_sql-IsNumbered :
      (p : Platform) (o : TableOperator) (v : Scalar) (params : List Scalar) {r : Registered}
      → o ≢ after
      → date_sql offset col c p o v params ≡ ok r
      → IsNumbered offset params r
  date_sql-IsNumbered p equals v params d e =
      subst (IsNumbered offset params) (ok-injective e)
        (two_tests-IsNumbered "" " >= " " AND " " < " "" v (after_date offset col c v) params)
  date_sql-IsNumbered p not_equals v params d e =
      subst (IsNumbered offset params) (ok-injective e)
        (two_tests-IsNumbered "(" " < " " OR " " >= " ")" v (after_date offset col c v) params)
  date_sql-IsNumbered p before v params d e = test-IsNumbered _ _ v params e
  date_sql-IsNumbered p after v params d e = absurd (d refl)
  date_sql-IsNumbered p between v params d e =
      let (w, ew, last) = bind-eq-ok (range_end p c FieldType.date v) _ e in
      subst (IsNumbered offset params) (ok-injective last)
        (two_tests-IsNumbered "" " >= " " AND " " < " "" v (after_date offset col c w) params)
  date_sql-IsNumbered p _ v params d e = absurd (cc e)

  abbrev pub IsGapless : FieldType → TableOperator → Type 0
  IsGapless type o = ¬ ((type ≡ FieldType.date) × (o ≡ after))

  value_sql-IsNumbered :
      (p : Platform) (type : FieldType) (o : TableOperator) (v : Scalar) (params : List Scalar)
      {r : Registered}
      → IsGapless type o
      → value_sql offset col c p type o v params ≡ ok r
      → IsNumbered offset params r
  value_sql-IsNumbered p FieldType.text o v params g e = text_sql-IsNumbered o v params e
  value_sql-IsNumbered p FieldType.enum o v params g e = enum_sql-IsNumbered o v params e
  value_sql-IsNumbered p FieldType.number o v params g e =
      number_sql-IsNumbered p FieldType.number o v params e
  value_sql-IsNumbered p FieldType.time o v params g e =
      number_sql-IsNumbered p FieldType.time o v params e
  value_sql-IsNumbered p FieldType.date o v params g e =
      date_sql-IsNumbered p o v params (λ a. g (refl, a)) e

  no_uses : (type : FieldType) (o : TableOperator) → uses (valueless_sql offset col c type o) ≡ []
  unfolding uses
  no_uses FieldType.text is_empty = refl
  no_uses FieldType.text _ = refl
  no_uses FieldType.number is_empty = refl
  no_uses FieldType.number _ = refl
  no_uses FieldType.enum is_empty = refl
  no_uses FieldType.enum _ = refl
  no_uses FieldType.date is_empty = refl
  no_uses FieldType.date _ = refl
  no_uses FieldType.time is_empty = refl
  no_uses FieldType.time _ = refl

  valueless_sql-IsNumbered :
      (type : FieldType) (o : TableOperator) (params : List Scalar)
      → IsNumbered offset params (valueless_sql offset col c type o, params)
  unfolding IsNumbered uses numbers_after
  valueless_sql-IsNumbered type o params = ([], sym (append-nil params), no_uses type o)

  pub compile_column-IsNumbered :
      (p : Platform) (now : ℕ) (type : FieldType) (params : List Scalar) {r : Registered}
      → IsGapless type (operator_of c)
      → compile_column offset col c p now type params ≡ ok r
      → IsNumbered offset params r
  unfolding compile_column
  compile_column-IsNumbered p now type params g e =
      elim (Bool-cases (is_valueless (operator_of c))) [
        | inl vl ↦
            subst (IsNumbered offset params) (ok-injective (rw vl at e))
              (valueless_sql-IsNumbered type (operator_of c) params)
        | inr vl ↦ elim (Bool-cases (is_relative_date (operator_of c))) [
          | inl rel ↦
              let (range, er, last) =
                bind-eq-ok (date_range_for p now c type) _ (rw (vl, rel) at e) in
              subst (IsNumbered offset params) (ok-injective last) (
                two_tests-IsNumbered "" " >= " " AND " " < " "" (Scalar.date range.gte)
                  (Scalar.date range.lt) params)
          | inr rel ↦
              let (v, ev, last) = bind-eq-ok (scalar_value p c.value type) _ (rw (vl, rel) at e) in
              value_sql-IsNumbered p type (operator_of c) v params g last
        ]
      ]
