-- ===== src/TableQuery/Memory/Documented.antt =====
-- What Prisma's documentation says of the tests on one column, as hypotheses on a test of rows.
use wbme.Common.{◌≡◌, Bool, true, false, ltb, leb, ◌==◌, ◌&&◌, ◌||◌, not, String}
use wbme.TableQuery.{or, Scalar}
use wbme.TableQuery.Prisma.{
  PrismaWhere, is_null, not_null, is, is_not, gt, gte, lt, lte, gte_lte, gte_lt, column, combine,
  two,
}

-- The order and the equality of two values of one type.
abbrev pub less : Scalar → Scalar → Bool
less (Scalar.number a) (Scalar.number b) = ltb a b
less (Scalar.date a) (Scalar.date b) = ltb a b
less _ _ = false

abbrev pub at_most : Scalar → Scalar → Bool
at_most (Scalar.number a) (Scalar.number b) = leb a b
at_most (Scalar.date a) (Scalar.date b) = leb a b
at_most _ _ = false

abbrev pub same : Scalar → Scalar → Bool
same (Scalar.number a) (Scalar.number b) = a == b
same (Scalar.date a) (Scalar.date b) = a == b
same _ _ = false

-- What Prisma's documentation says of the tests on a column that holds the value `v`.
pub record IsPrisma (holds : PrismaWhere → Bool) (f : String) (v : Scalar) : Type 0 where
  pub holds_null : holds (column f is_null) ≡ false
  pub holds_not_null : holds (column f not_null) ≡ true
  pub holds_is : (w : Scalar) → holds (column f (is w)) ≡ same v w
  pub holds_is_not : (w : Scalar) → holds (column f (is_not w)) ≡ not (same v w)
  pub holds_gt : (w : Scalar) → holds (column f (gt w)) ≡ less w v
  pub holds_gte : (w : Scalar) → holds (column f (gte w)) ≡ at_most w v
  pub holds_lt : (w : Scalar) → holds (column f (lt w)) ≡ less v w
  pub holds_lte : (w : Scalar) → holds (column f (lte w)) ≡ at_most v w
  pub holds_gte_lte : (a b : Scalar) → holds (column f (gte_lte a b)) ≡ at_most a v && at_most v b
  pub holds_gte_lt : (a b : Scalar) → holds (column f (gte_lt a b)) ≡ at_most a v && less v b
  pub holds_or : (a b : PrismaWhere) → holds (combine or (two a b)) ≡ holds a || holds b
