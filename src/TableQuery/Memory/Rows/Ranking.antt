-- ===== src/TableQuery/Memory/Rows/Ranking.antt =====
-- What the sorts of a query mean: each with its direction, the next where one finds no difference.
use wbme.Common.{ℕ, ◌≤◌, List, [], ◌∷◌, String, ok, err}
use wbme.TableQuery.{Direction, asc, desc, Sort, Sign, negative, zero, positive, nan, Platform}
use wbme.TableQuery.Context.{field_definition}
use wbme.TableQuery.Memory.{TableInMemoryField}
use wbme.TableQuery.Memory.Rows.{compare_memory_values}

module _ {ℓ} {Row : Type ℓ} (p : Platform) (now : ℕ)
    (fields : List (String × TableInMemoryField Row)) where
  -- Of two values that differ, ASC wants the smaller one first and DESC the larger one; values that
  -- are alike leave it to what follows, and values that cannot be compared leave it open.
  abbrev pub Precedes : Direction → Sign → Type 0 → Type 0
  Precedes d zero next = next
  Precedes d nan next = Unit
  Precedes asc negative next = Unit
  Precedes asc positive next = ⊥
  Precedes desc negative next = ⊥
  Precedes desc positive next = Unit

  -- The first of two rows may stand before the second: by the sorts in their order, at last by the
  -- index.
  unfoldable pub MayPrecede : List Sort → Row × ℕ → Row × ℕ → Type 0
  MayPrecede [] a b = a.1 ≤ b.1
  MayPrecede (s ∷ sorts) a b = elim (field_definition s.field fields) [
    | ok d ↦
        Precedes s.direction (compare_memory_values p now fields d.type (d.value a.0) (d.value b.0))
          (MayPrecede sorts a b)
    | err e ↦ ⊥
  ]

  unfoldable pub Ranked : List Sort → List (Row × ℕ) → Type 0
  unfolding MayPrecede
  Ranked sorts [] = Unit
  Ranked sorts (a ∷ []) = Unit
  Ranked sorts (a ∷ b ∷ rows) = MayPrecede sorts a b × Ranked sorts (b ∷ rows)
