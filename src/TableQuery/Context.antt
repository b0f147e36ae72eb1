-- ===== src/TableQuery/Context.antt =====
-- What the three compilers of conditions share: the field of a condition, the context of a custom
-- predicate, relative ranges, and the checks of BETWEEN, which each of them repeats.
use wbme.Common.{
  ℕ, Option, none, some, List, [], ◌∷◌, String, Result, ok, err, ◌>>=◌, if◌then◌else◌, ltb, str_eq,
}
use wbme.TableQuery.{
  TableFilterCondition, FieldType, Scalar, TableQueryError, unsupported_field, unsupported_operator,
  missing_end, bad_range, invalid_range, Platform,
}
use wbme.TableQuery.ScalarValue.{
  operator_of, is_valueless, is_relative_date, scalar_value, DateRange, relative_date_range,
}

pub record TableConditionContext : Type 0 where
  pub condition : TableFilterCondition
  pub value : Option Scalar
  pub value_end : Option Scalar

-- `fields[field]`: the whitelist of a resource, as an object with no keys but its own. The source
-- also finds what an object inherits, such as `constructor`.
unfoldable pub field_definition {ℓ} :
    {A : Type ℓ} → String → List (String × A) → Result TableQueryError A
field_definition f [] = err (unsupported_field f)
field_definition f ((name, d) ∷ fields) = if str_eq name f then ok d else field_definition f fields

abbrev pub optional_scalar :
    Platform → FieldType → Option String → Result TableQueryError (Option Scalar)
optional_scalar p type none = ok none
optional_scalar p type (some s) = do v ← scalar_value p s type; ok (some v)

-- What a custom predicate is called with.
unfoldable pub context_of :
    Platform → TableFilterCondition → FieldType → Result TableQueryError TableConditionContext
unfolding scalar_value
context_of p c type = do
  v ←
      if is_valueless (operator_of c)
      then ok none
      else if is_relative_date (operator_of c)
      then ok none
      else optional_scalar p type (some c.value)
  e ← optional_scalar p type c.value_end
  ok (record { condition = c; value = v; value_end = e })

abbrev pub range_or_invalid : Option DateRange → Result TableQueryError DateRange
range_or_invalid none = err invalid_range
range_or_invalid (some r) = ok r

-- A relative range, for a field of dates only.
abbrev pub date_range_for :
    Platform → ℕ → TableFilterCondition → FieldType → Result TableQueryError DateRange
date_range_for p now c FieldType.date = range_or_invalid (relative_date_range p (operator_of c) now)
date_range_for p now c _ = err (unsupported_operator c.field c.operator)

-- `!condition.valueEnd`
abbrev pub end_text : TableFilterCondition → Option String → Result TableQueryError String
end_text c none = err (missing_end c.field)
end_text c (some s) = if str_eq s "" then err (missing_end c.field) else ok s

abbrev pub ordered_end : TableFilterCondition → Scalar → Scalar → Result TableQueryError Scalar
ordered_end c (Scalar.number a) (Scalar.number b) =
    if ltb b a then err (bad_range c.field) else ok (Scalar.number b)
ordered_end c (Scalar.date a) (Scalar.date b) =
    if ltb b a then err (bad_range c.field) else ok (Scalar.date b)
ordered_end c _ _ = err (bad_range c.field)

-- The end of an interval that starts at a value: present, well formed, not before the start.
unfoldable pub range_end :
    Platform → TableFilterCondition → FieldType → Scalar → Result TableQueryError Scalar
unfolding scalar_value
range_end p c type start = do
  s ← end_text c c.value_end
  e ← scalar_value p s type
  ordered_end c start e
