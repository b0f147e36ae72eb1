-- ===== src/TableQuery/Memory/Rows/Laws.antt =====
-- Filtering and sorting rows in memory: which rows come back, and in which order.
use wbme.Common.{
  ℕ, suc, ◌≡◌, refl, ap, ◌∙◌, sym, subst, Bool, true, false, Bool-cases, inl, inr, ◌&&◌, List, [],
  ◌∷◌, map, count_if, String, Result, ok, err, bind-eq-ok, ok-injective, Option, if◌then◌else◌,
  arith,
}
use wbme.TableQuery.{TableFilterTreeGroup, Sort, TableQueryInput, TableQueryError, Platform}
use wbme.TableQuery.Filters.{parse_filters, parse_sorts}
use wbme.TableQuery.Memory.{TableInMemoryField}
use wbme.TableQuery.Memory.Rows.{
  matches_filters, filter_rows, compare_rows, goes_first, insert_row, sort_rows, sort_if,
  filter_and_sort_table_rows,
}

abbrev pub is_hit : Result TableQueryError Bool → Bool
is_hit (ok b) = b
is_hit (err e) = false

module _ {ℓ} {A : Type ℓ} where
  count-cons :
      (q : A → Bool) (a : A) (xs ys : List A)
      → count_if q xs ≡ count_if q ys
      → count_if q (a ∷ xs) ≡ count_if q (a ∷ ys)
  count-cons q a xs ys h = ground (arith, h)

  count-swap :
      (q : A → Bool) (a b : A) (bs cs : List A)
      → count_if q cs ≡ count_if q (a ∷ bs)
      → count_if q (b ∷ cs) ≡ count_if q (a ∷ b ∷ bs)
  count-swap q a b bs cs h = ground (arith, h)

  count-kept :
      (q : A → Bool) (hit : Bool) (row : A) (index : ℕ) (rest : List (A × ℕ)) {n : ℕ}
      → count_if (λ r. q r.0) rest ≡ n
      → count_if (λ r. q r.0) (if hit then (row, index) ∷ rest else rest)
        ≡ (if hit && q row then suc n else n)
  count-kept q true row index rest h = ground (arith, h)
  count-kept q false row index rest h = h

  count-map :
      (q : A → Bool) (xs : List (A × ℕ)) → count_if q (map (λ r. r.0) xs) ≡ count_if (λ r. q r.0) xs
  count-map q [] = refl
  count-map q (x ∷ xs) = ground (arith, count-map q xs)

module _ {ℓ} {Row : Type ℓ} (p : Platform) (now : ℕ)
    (fields : List (String × TableInMemoryField Row)) where
  filter_rows-count :
      (q : Row → Bool) (filters : Option TableFilterTreeGroup) (index : ℕ) (rows : List Row)
      {kept : List (Row × ℕ)}
      → filter_rows p now fields filters index rows ≡ ok kept
      → count_if (λ r. q r.0) kept
        ≡ count_if (λ r. is_hit (matches_filters p now fields filters r) && q r) rows
  unfolding filter_rows
  filter_rows-count q filters index [] e = ap (count_if (λ r. q r.0)) (sym (ok-injective e))
  filter_rows-count q filters index (row ∷ rows) e =
      let (hit, eh, more) = bind-eq-ok (matches_filters p now fields filters row) _ e in
      let (rest, er, last) =
        bind-eq-ok (filter_rows p now fields filters (if hit then suc index else index) rows) _
          more in
      let tail = filter_rows-count q filters (if hit then suc index else index) rows er in
      subst
        (λ k.
          count_if (λ r. q r.0) k
          ≡ count_if (λ r. is_hit (matches_filters p now fields filters r) && q r) (row ∷ rows))
        (ok-injective last) (rw eh (count-kept q hit row index rest tail))

  insert_row-count :
      (q : Row × ℕ → Bool) (sorts : List Sort) (a : Row × ℕ) (bs : List (Row × ℕ))
      {cs : List (Row × ℕ)}
      → insert_row p now fields sorts a bs ≡ ok cs
      → count_if q cs ≡ count_if q (a ∷ bs)
  unfolding insert_row
  insert_row-count q sorts a [] e = ap (count_if q) (sym (ok-injective e))
  insert_row-count q sorts a (b ∷ bs) e =
      let (s, es, rest) = bind-eq-ok (compare_rows p now fields sorts a b) _ e in
      elim (Bool-cases (goes_first p now fields s)) [
        | inl t ↦ ap (count_if q) (sym (ok-injective (rw t at rest)))
        | inr t ↦
            let (cs, ec, last) = bind-eq-ok (insert_row p now fields sorts a bs) _ (rw t at rest) in
            ap (count_if q) (sym (ok-injective last))
            ∙ count-swap q a b bs cs (insert_row-count q sorts a bs ec)
      ]

  sort_rows-count :
      (q : Row × ℕ → Bool) (sorts : List Sort) (rows : List (Row × ℕ)) {out : List (Row × ℕ)}
      → sort_rows p now fields sorts rows ≡ ok out
      → count_if q out ≡ count_if q rows
  unfolding sort_rows
  sort_rows-count q sorts [] e = ap (count_if q) (sym (ok-injective e))
  sort_rows-count q sorts (a ∷ rows) e =
      let (bs, eb, last) = bind-eq-ok (sort_rows p now fields sorts rows) _ e in
      insert_row-count q sorts a bs last ∙ count-cons q a bs rows (sort_rows-count q sorts rows eb)

  sort_if-count :
      (q : Row × ℕ → Bool) (sorts : List Sort) (rows : List (Row × ℕ)) {out : List (Row × ℕ)}
      → sort_if p now fields sorts rows ≡ ok out
      → count_if q out ≡ count_if q rows
  sort_if-count q [] rows e = ap (count_if q) (sym (ok-injective e))
  sort_if-count q (s ∷ sorts) rows e = sort_rows-count q (s ∷ sorts) rows e

  -- The steps of a run that succeeds.
  pub run-steps :
      (input : TableQueryInput) (rows out : List Row)
      → filter_and_sort_table_rows p now fields input rows ≡ ok out
      → (filters : Option TableFilterTreeGroup) × (sorts : List Sort) × (kept : List (Row × ℕ))
        × (ranked : List (Row × ℕ)) × (parse_filters p input.filters ≡ ok filters)
        × (parse_sorts p input.sorts ≡ ok sorts)
        × (filter_rows p now fields filters 0 rows ≡ ok kept)
        × (sort_if p now fields sorts kept ≡ ok ranked)
        × (map (λ r. r.0) ranked ≡ out)
  unfolding filter_and_sort_table_rows
  run-steps input rows out e =
      let (filters, ef, rest) = bind-eq-ok (parse_filters p input.filters) _ e in
      let (sorts, es, more) = bind-eq-ok (parse_sorts p input.sorts) _ rest in
      let (kept, ek, end) = bind-eq-ok (filter_rows p now fields filters 0 rows) _ more in
      let (ranked, er, last) = bind-eq-ok (sort_if p now fields sorts kept) _ end in
      (filters, sorts, kept, ranked, ef, es, ek, er, ok-injective last)

  -- Exactly the rows that match the filters come back, each as often as it was given, whatever the
  -- sorts are.
  pub filter_and_sort_table_rows-count :
      (input : TableQueryInput) (filters : Option TableFilterTreeGroup) (rows out : List Row)
      (q : Row → Bool)
      → parse_filters p input.filters ≡ ok filters
      → filter_and_sort_table_rows p now fields input rows ≡ ok out
      → count_if q out ≡ count_if (λ r. is_hit (matches_filters p now fields filters r) && q r) rows
  filter_and_sort_table_rows-count input filters rows out q parsed e =
      let (fs, sorts, kept, ranked, ef, es, ek, er, last) = run-steps input rows out e in
      let found : fs ≡ filters = ok-injective (sym ef ∙ parsed) in
      ap (count_if q) (sym last)
      ∙ count-map q ranked
      ∙ sort_if-count (λ r. q r.0) sorts kept er
      ∙ subst
          (λ o.
            count_if (λ r. q r.0) kept
            ≡ count_if (λ r. is_hit (matches_filters p now fields o r) && q r) rows)
          found (filter_rows-count q fs 0 rows ek)
