-- ===== src/TableQuery/Memory/Laws.antt =====
-- One condition in memory and in the database: the two give the same answer where the value is there.
use wbme.Common.{
  ℕ, ◌≡◌, refl, ap, ◌∙◌, sym, Bool, true, false, Bool-cases, inl, inr, ltb, List, [], ◌∷◌, String,
  ok, ◌>>=◌, codes, codes_eq, map_ok, map_ok-bind, bind-eq-ok, ok-injective, Option, none, some,
}
use wbme.TableQuery.{
  TableOperator, equals, not_equals, greater_than, greater_than_or_equal, less_than,
  less_than_or_equal, before, after, between, is_empty, is_not_empty, TableFilterCondition, or,
  FieldType, Scalar, Cell, Platform,
}
use wbme.TableQuery.ScalarValue.{
  operator_of, is_valueless, is_relative_date, scalar_value, next_day, number_scalar, time_scalar,
  date_scalar, is_decimal, time_minutes, is_date_text,
}
use wbme.TableQuery.Context.{date_range_for, range_end, ordered_end, end_text}
use wbme.TableQuery.Prisma.{
  PrismaWhere, gte, lt, gte_lt, column, for_each_field, number_filter, date_filter, value_filter,
  valueless_filter, is_is_empty, compile_standard, each,
}
use wbme.TableQuery.Memory.Documented.{IsPrisma}
use wbme.TableQuery.Memory.{
  is_missing, memory_date, memory_number, number_match, date_match, value_match, valueless_match,
  match_cell, in_range_if,
}

module _ (p : Platform) (c : TableFilterCondition) where
  ordered_end-number :
      (v : ℕ) (s e : Scalar)
      → ordered_end c (Scalar.number v) s ≡ ok e
      → (n : ℕ) × (e ≡ Scalar.number n)
  ordered_end-number v (Scalar.number n) e h = elim (Bool-cases (ltb n v)) [
    | inl t ↦ absurd (cc (rw t at h))
    | inr t ↦ (n, sym (ok-injective (rw t at h)))
  ]
  ordered_end-number v (Scalar.date n) e h = absurd (cc h)
  ordered_end-number v (Scalar.text n) e h = absurd (cc h)

  ordered_end-date :
      (v : ℕ) (s e : Scalar)
      → ordered_end c (Scalar.date v) s ≡ ok e
      → (n : ℕ) × (e ≡ Scalar.date n)
  ordered_end-date v (Scalar.date n) e h = elim (Bool-cases (ltb n v)) [
    | inl t ↦ absurd (cc (rw t at h))
    | inr t ↦ (n, sym (ok-injective (rw t at h)))
  ]
  ordered_end-date v (Scalar.number n) e h = absurd (cc h)
  ordered_end-date v (Scalar.text n) e h = absurd (cc h)

  range_end-number :
      (type : FieldType) (v : ℕ) (e : Scalar)
      → range_end p c type (Scalar.number v) ≡ ok e
      → (n : ℕ) × (e ≡ Scalar.number n)
  unfolding range_end
  range_end-number type v e h =
      let (s, _, rest) = bind-eq-ok (end_text c c.value_end) _ h in
      let (w, _, last) = bind-eq-ok (scalar_value p s type) _ rest in ordered_end-number v w e last

  range_end-date :
      (type : FieldType) (v : ℕ) (e : Scalar)
      → range_end p c type (Scalar.date v) ≡ ok e
      → (n : ℕ) × (e ≡ Scalar.date n)
  unfolding range_end
  range_end-date type v e h =
      let (s, _, rest) = bind-eq-ok (end_text c c.value_end) _ h in
      let (w, _, last) = bind-eq-ok (scalar_value p s type) _ rest in ordered_end-date v w e last

  module _ (holds : PrismaWhere → Bool) (f : String) (x : ℕ) where
    module _ (doc : IsPrisma holds f (Scalar.number x)) where
      number_filter-number_match :
          (type : FieldType) (o : TableOperator) (v : ℕ)
          → map_ok holds (number_filter (f ∷ []) c p type o (Scalar.number v))
            ≡ number_match p c type o x v
      unfolding for_each_field
      number_filter-number_match type equals v = ap ok (doc.holds_is (Scalar.number v))
      number_filter-number_match type not_equals v = ap ok (doc.holds_is_not (Scalar.number v))
      number_filter-number_match type greater_than v = ap ok (doc.holds_gt (Scalar.number v))
      number_filter-number_match type greater_than_or_equal v =
          ap ok (doc.holds_gte (Scalar.number v))
      number_filter-number_match type less_than v = ap ok (doc.holds_lt (Scalar.number v))
      number_filter-number_match type less_than_or_equal v = ap ok (doc.holds_lte (Scalar.number v))
      number_filter-number_match type between v =
          map_ok-bind holds (range_end p c type (Scalar.number v)) _ _ (λ e h.
            let (n, en) = range_end-number type v e h in
            rw en (ap ok (doc.holds_gte_lte (Scalar.number v) (Scalar.number n))))
      number_filter-number_match type _ v = refl

    module _ (doc : IsPrisma holds f (Scalar.date x)) where
      date_filter-date_match :
          (o : TableOperator) (v : ℕ)
          → map_ok holds (date_filter (f ∷ []) c p o (Scalar.date v)) ≡ date_match p c o x v
      unfolding for_each_field
      date_filter-date_match equals v =
          ap ok (doc.holds_gte_lt (Scalar.date v) (Scalar.date (next_day v)))
      date_filter-date_match not_equals v = ap ok (
          doc.holds_or (column f (lt (Scalar.date v))) (column f (gte (Scalar.date (next_day v))))
          ∙ rw (doc.holds_lt (Scalar.date v), doc.holds_gte (Scalar.date (next_day v))) refl)
      date_filter-date_match before v = ap ok (doc.holds_lt (Scalar.date v))
      date_filter-date_match after v = ap ok (doc.holds_gte (Scalar.date (next_day v)))
      date_filter-date_match between v =
          map_ok-bind holds (range_end p c FieldType.date (Scalar.date v)) _ _ (λ e h.
            let (n, en) = range_end-date FieldType.date v e h in
            rw en (ap ok (doc.holds_gte_lt (Scalar.date v) (Scalar.date (next_day n)))))
      date_filter-date_match _ v = refl

-- What a cell holds for a field of numbers, times or dates, where it holds anything.
pub data Reads (p : Platform) : FieldType → Cell → Scalar → Type 0 where
  reads_number :
      (v : Cell) (n : ℕ)
      → is_missing v ≡ false
      → memory_number p v ≡ some n
      → Reads p FieldType.number v (Scalar.number n)
  reads_time :
      (v : Cell) (n : ℕ)
      → is_missing v ≡ false
      → memory_number p v ≡ some n
      → Reads p FieldType.time v (Scalar.number n)
  reads_date :
      (v : Cell) (d : ℕ)
      → is_missing v ≡ false
      → memory_date p v ≡ some d
      → Reads p FieldType.date v (Scalar.date d)

module _ (p : Platform) where
  number_scalar-number :
      (o : Option ℕ) (w : Scalar) → number_scalar o ≡ ok w → (n : ℕ) × (w ≡ Scalar.number n)
  number_scalar-number none w e = absurd (cc e)
  number_scalar-number (some n) w e = (n, sym (ok-injective e))

  time_scalar-number :
      (o : Option ℕ) (w : Scalar) → time_scalar p o ≡ ok w → (n : ℕ) × (w ≡ Scalar.number n)
  time_scalar-number none w e = absurd (cc e)
  time_scalar-number (some m) w e = (p.rank m, sym (ok-injective e))

  date_scalar-date :
      (s : List ℕ) (o : Option ℕ) (w : Scalar)
      → date_scalar p s o ≡ ok w
      → (d : ℕ) × (w ≡ Scalar.date d)
  date_scalar-date s none w e = absurd (cc e)
  date_scalar-date s (some d) w e = elim (Bool-cases (codes_eq (p.format_shanghai_date d) s)) [
    | inl t ↦ (d, sym (ok-injective (rw t at e)))
    | inr t ↦ absurd (cc (rw t at e))
  ]

  scalar_value-number :
      (s : String) (w : Scalar)
      → scalar_value p s FieldType.number ≡ ok w
      → (n : ℕ) × (w ≡ Scalar.number n)
  unfolding scalar_value
  scalar_value-number s w e = elim (Bool-cases (is_decimal (codes s))) [
    | inl t ↦ number_scalar-number (p.number_of s) w (rw t at e)
    | inr t ↦ absurd (cc (rw t at e))
  ]

  scalar_value-time :
      (s : String) (w : Scalar)
      → scalar_value p s FieldType.time ≡ ok w
      → (n : ℕ) × (w ≡ Scalar.number n)
  unfolding scalar_value
  scalar_value-time s w e = time_scalar-number (time_minutes (codes s)) w e

  scalar_value-date :
      (s : String) (w : Scalar)
      → scalar_value p s FieldType.date ≡ ok w
      → (d : ℕ) × (w ≡ Scalar.date d)
  unfolding scalar_value
  scalar_value-date s w e = elim (Bool-cases (is_date_text (codes s))) [
    | inl t ↦ date_scalar-date (codes s) (p.shanghai_day_start (codes s)) w (rw t at e)
    | inr t ↦ absurd (cc (rw t at e))
  ]

  module _ (c : TableFilterCondition) (holds : PrismaWhere → Bool) (f : String) where
    value_filter-value_match :
        (type : FieldType) (o : TableOperator) (v : Cell) (x w : Scalar)
        → Reads p type v x
        → IsPrisma holds f x
        → scalar_value p c.value type ≡ ok w
        → map_ok holds (value_filter (f ∷ []) c p type o w) ≡ value_match p c type o v w
    value_filter-value_match _ o v _ w (reads_number _ n there r) doc e =
        let (k, ek) = scalar_value-number c.value w e in
        rw (ek, r) (number_filter-number_match p c holds f n doc FieldType.number o k)
    value_filter-value_match _ o v _ w (reads_time _ n there r) doc e =
        let (k, ek) = scalar_value-time c.value w e in
        rw (ek, r) (number_filter-number_match p c holds f n doc FieldType.time o k)
    value_filter-value_match _ o v _ w (reads_date _ d there r) doc e =
        let (k, ek) = scalar_value-date c.value w e in
        rw (ek, r) (date_filter-date_match p c holds f d doc o k)

    valueless_filter-valueless_match :
        (type : FieldType) (o : TableOperator) (v : Cell) (x : Scalar)
        → Reads p type v x
        → IsPrisma holds f x
        → is_valueless o ≡ true
        → holds (valueless_filter (f ∷ []) type (is_is_empty o)) ≡ valueless_match p c type o v
    unfolding for_each_field
    valueless_filter-valueless_match _ is_empty v _ (reads_number _ n there r) doc e =
        doc.holds_null ∙ sym there
    valueless_filter-valueless_match _ is_empty v _ (reads_time _ n there r) doc e =
        doc.holds_null ∙ sym there
    valueless_filter-valueless_match _ is_empty v _ (reads_date _ n there r) doc e =
        doc.holds_null ∙ sym there
    valueless_filter-valueless_match _ is_not_empty v _ (reads_number _ n there r) doc e =
        rw there doc.holds_not_null
    valueless_filter-valueless_match _ is_not_empty v _ (reads_time _ n there r) doc e =
        rw there doc.holds_not_null
    valueless_filter-valueless_match _ is_not_empty v _ (reads_date _ n there r) doc e =
        rw there doc.holds_not_null
    valueless_filter-valueless_match _ _ v x h doc e = absurd (cc e)

    range_filter-in_range_if :
        (now : ℕ) (type : FieldType) (v : Cell) (x : Scalar)
        → Reads p type v x
        → IsPrisma holds f x
        → map_ok holds (
            date_range_for p now c type
            >>= (λ r. each (f ∷ []) c (gte_lt (Scalar.date r.gte)) (Scalar.date r.lt) or))
          ≡ in_range_if p c now type (memory_date p v)
    unfolding for_each_field
    range_filter-in_range_if now _ v _ (reads_number _ n there r) doc = refl
    range_filter-in_range_if now _ v _ (reads_time _ n there r) doc = refl
    range_filter-in_range_if now _ v _ (reads_date _ d there e) doc = rw e (
        map_ok-bind holds (date_range_for p now c FieldType.date) _ _
          (λ r h. ap ok (doc.holds_gte_lt (Scalar.date r.gte) (Scalar.date r.lt))))

    -- A condition on a field of numbers, times or dates with one column, compiled for Prisma, holds
    -- of a row exactly if it holds in memory, and one is refused exactly if the other is, for the
    -- same reason: where the row has a finite number or a valid date, and Prisma tests the column
    -- as documented.
    pub compile_standard-match_cell :
        (now : ℕ) (type : FieldType) (v : Cell) (x : Scalar)
        → Reads p type v x
        → IsPrisma holds f x
        → map_ok holds (compile_standard (f ∷ []) c p now type) ≡ match_cell p c now type v
    unfolding compile_standard match_cell
    compile_standard-match_cell now type v x h doc =
        elim (Bool-cases (is_valueless (operator_of c))) [
          | inl vl ↦
              rw vl (ap ok (valueless_filter-valueless_match type (operator_of c) v x h doc vl))
          | inr vl ↦ elim (Bool-cases (is_relative_date (operator_of c))) [
            | inl rel ↦ rw (vl, rel) (range_filter-in_range_if now type v x h doc)
            | inr rel ↦
                rw (vl, rel)
                  (map_ok-bind holds (scalar_value p c.value type) _ _
                    (λ w e. value_filter-value_match type (operator_of c) v x w h doc e))
          ]
        ]
