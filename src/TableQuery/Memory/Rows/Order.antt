-- ===== src/TableQuery/Memory/Rows/Order.antt =====
-- The order of sorted rows.
use wbme.Common.{
  ℕ, ◌≡◌, refl, ap, ◌∙◌, sym, subst, true, false, Bool-cases, inl, inr, List, [], ◌∷◌, String,
  Result, ok, map_ok, map_ok-bind, bind-eq-ok, ok-injective, Option, none, some, arith,
}
use wbme.TableQuery.{
  Direction, asc, desc, Sort, FieldType, Cell, Sign, negative, zero, positive, nan, TableQueryError,
  Platform,
}
use wbme.TableQuery.Context.{field_definition}
use wbme.TableQuery.Memory.{TableInMemoryField, is_missing, memory_date, memory_number, memory_text}
use wbme.TableQuery.Memory.Rows.{
  sign_of, subtract, compare_dates, compare_present, compare_memory_values, opposite, or_next,
  compare_rows, goes_first, insert_row, sort_rows,
}

module _ {ℓ} {Row : Type ℓ} (p : Platform) (now : ℕ)
    (fields : List (String × TableInMemoryField Row))
    (locale : (s t : String)
      → p.locale_compare t s ≡ opposite p now fields (p.locale_compare s t)) where
  abbrev turned : Sign → Sign
  turned s = opposite p now fields s

  sign_of-swap : (a b : ℕ) → sign_of p now fields b a ≡ turned (sign_of p now fields a b)
  sign_of-swap a b = ground arith

  subtract-swap : (a b : Option ℕ) → subtract p now fields b a ≡ turned (subtract p now fields a b)
  subtract-swap (some a) (some b) = sign_of-swap a b
  subtract-swap (some a) none = refl
  subtract-swap none (some b) = refl
  subtract-swap none none = refl

  compare_dates-swap :
      (a b : Option ℕ) → compare_dates p now fields b a ≡ turned (compare_dates p now fields a b)
  compare_dates-swap (some a) (some b) = sign_of-swap a b
  compare_dates-swap (some a) none = refl
  compare_dates-swap none (some b) = refl
  compare_dates-swap none none = refl

  compare_present-swap :
      (type : FieldType) (a b : Cell)
      → compare_present p now fields type b a ≡ turned (compare_present p now fields type a b)
  compare_present-swap FieldType.number a b = subtract-swap (memory_number p a) (memory_number p b)
  compare_present-swap FieldType.time a b = subtract-swap (memory_number p a) (memory_number p b)
  compare_present-swap FieldType.date a b = compare_dates-swap (memory_date p a) (memory_date p b)
  compare_present-swap FieldType.text a b = locale (memory_text p a) (memory_text p b)
  compare_present-swap FieldType.enum a b = locale (memory_text p a) (memory_text p b)

  compare_memory_values-swap :
      (type : FieldType) (a b : Cell)
      → compare_memory_values p now fields type b a
        ≡ turned (compare_memory_values p now fields type a b)
  unfolding compare_memory_values
  compare_memory_values-swap type a b = elim (Bool-cases (is_missing a)) [
    | inl x ↦ elim (Bool-cases (is_missing b)) [ inl y ↦ rw (x, y) refl | inr y ↦ rw (x, y) refl ]
    | inr x ↦ elim (Bool-cases (is_missing b)) [
      | inl y ↦ rw (x, y) refl
      | inr y ↦ rw (x, y) (compare_present-swap type a b)
    ]
  ]

  or_next-swap :
      (d : Direction) (s : Sign) (x y : Result TableQueryError Sign)
      → map_ok turned x ≡ y
      → map_ok turned (or_next p now fields d s x) ≡ or_next p now fields d (turned s) y
  or_next-swap d zero x y h = h
  or_next-swap asc negative x y h = refl
  or_next-swap asc positive x y h = refl
  or_next-swap asc nan x y h = refl
  or_next-swap desc negative x y h = refl
  or_next-swap desc positive x y h = refl
  or_next-swap desc nan x y h = refl

  compare_rows-swap :
      (sorts : List Sort) (a b : Row × ℕ)
      → map_ok turned (compare_rows p now fields sorts a b) ≡ compare_rows p now fields sorts b a
  unfolding compare_rows
  compare_rows-swap [] a b = ap ok (sym (sign_of-swap a.1 b.1))
  compare_rows-swap (s ∷ sorts) a b =
      map_ok-bind turned (field_definition s.field fields) _ _ (λ d h.
        or_next-swap s.direction _ _ _ (compare_rows-swap sorts a b)
        ∙ ap (λ v. or_next p now fields s.direction v (compare_rows p now fields sorts b a))
            (sym (compare_memory_values-swap d.type (d.value a.0) (d.value b.0))))

  -- The first of the two does not come after the second.
  abbrev InOrder : List Sort → Row × ℕ → Row × ℕ → Type 0
  InOrder sorts a b =
      (s : Sign) × (compare_rows p now fields sorts a b ≡ ok s) × (goes_first p now fields s ≡ true)

  abbrev HeadInOrder : List Sort → Row × ℕ → List (Row × ℕ) → Type 0
  HeadInOrder sorts a [] = Unit
  HeadInOrder sorts a (b ∷ bs) = InOrder sorts a b

  -- Of two neighbours the first does not come after the second.
  abbrev pub Ordered : List Sort → List (Row × ℕ) → Type 0
  Ordered sorts [] = Unit
  Ordered sorts (a ∷ rows) = HeadInOrder sorts a rows × Ordered sorts rows

  goes_first-turned :
      (s : Sign) → goes_first p now fields s ≡ false → goes_first p now fields (turned s) ≡ true
  goes_first-turned positive h = refl
  goes_first-turned negative h = absurd (cc h)
  goes_first-turned zero h = absurd (cc h)
  goes_first-turned nan h = absurd (cc h)

  InOrder-swap :
      (sorts : List Sort) (a b : Row × ℕ) (s : Sign)
      → compare_rows p now fields sorts a b ≡ ok s
      → goes_first p now fields s ≡ false
      → InOrder sorts b a
  InOrder-swap sorts a b s e t =
      (turned s, sym (compare_rows-swap sorts a b) ∙ ap (map_ok turned) e, goes_first-turned s t)

  insert_row-HeadInOrder :
      (sorts : List Sort) (a b : Row × ℕ) (bs : List (Row × ℕ)) {cs : List (Row × ℕ)}
      → insert_row p now fields sorts a bs ≡ ok cs
      → InOrder sorts b a
      → HeadInOrder sorts b bs
      → HeadInOrder sorts b cs
  unfolding insert_row
  insert_row-HeadInOrder sorts a b [] e x y = subst (HeadInOrder sorts b) (ok-injective e) x
  insert_row-HeadInOrder sorts a b (d ∷ bs) e x y =
      let (s, es, rest) = bind-eq-ok (compare_rows p now fields sorts a d) _ e in
      elim (Bool-cases (goes_first p now fields s)) [
        | inl t ↦ subst (HeadInOrder sorts b) (ok-injective (rw t at rest)) x
        | inr t ↦
            let (cs, ec, last) = bind-eq-ok (insert_row p now fields sorts a bs) _ (rw t at rest) in
            subst (HeadInOrder sorts b) (ok-injective last) y
      ]

  insert_row-Ordered :
      (sorts : List Sort) (a : Row × ℕ) (bs : List (Row × ℕ)) {cs : List (Row × ℕ)}
      → insert_row p now fields sorts a bs ≡ ok cs
      → Ordered sorts bs
      → Ordered sorts cs
  unfolding insert_row
  insert_row-Ordered sorts a [] e h = subst (Ordered sorts) (ok-injective e) (tt, tt)
  insert_row-Ordered sorts a (b ∷ bs) e h =
      let (s, es, rest) = bind-eq-ok (compare_rows p now fields sorts a b) _ e in
      elim (Bool-cases (goes_first p now fields s)) [
        | inl t ↦ subst (Ordered sorts) (ok-injective (rw t at rest)) ((s, es, t), h)
        | inr t ↦
            let (cs, ec, last) = bind-eq-ok (insert_row p now fields sorts a bs) _ (rw t at rest) in
            subst (Ordered sorts) (ok-injective last) (
              insert_row-HeadInOrder sorts a b bs ec (InOrder-swap sorts a b s es t) h.0,
              insert_row-Ordered sorts a bs ec h.1,
            )
      ]

  -- Of two neighbours among sorted rows the first does not come after the second, by the sorts in
  -- their order and at last by the index: if comparing texts the other way round gives the opposite
  -- sign.
  pub sort_rows-Ordered :
      (sorts : List Sort) (rows : List (Row × ℕ)) {out : List (Row × ℕ)}
      → sort_rows p now fields sorts rows ≡ ok out
      → Ordered sorts out
  unfolding sort_rows
  sort_rows-Ordered sorts [] e = subst (Ordered sorts) (ok-injective e) tt
  sort_rows-Ordered sorts (a ∷ rows) e =
      let (bs, eb, last) = bind-eq-ok (sort_rows p now fields sorts rows) _ e in
      insert_row-Ordered sorts a bs last (sort_rows-Ordered sorts rows eb)
