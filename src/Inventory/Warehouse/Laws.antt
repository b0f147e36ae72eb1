-- ===== src/Inventory/Warehouse/Laws.antt =====
-- Which path a storage place gets.
use wbme.Common.{
  ℕ, zero, suc, ◌≤◌, true, false, not, Option, none, some, List, [], ◌∷◌, String, if◌then◌else◌,
  ◌≡◌, refl, sym, ap, ◌∙◌, inl, inr, arith, length, Option-cases, Bool-cases,
}
use mathlib.Core.Option.{some-injective}
use wbme.Inventory.Warehouse.{
  Warehouse, WarehousePathRow, find_unique, join, last_name, climb, path_row,
  load_warehouse_with_path,
}

-- The places from `id` up to one without a parent, all of which exist.
pub data Chain (ws : List Warehouse) : Option ℕ → List Warehouse → Type 0 where
  top : Chain ws none []
  up :
      {id : ℕ} {w : Warehouse} {above : List Warehouse}
      → find_unique id ws ≡ some w
      → Chain ws w.parent_id above
      → Chain ws (some id) (w ∷ above)

-- The names along a chain, outermost first, before those of `names`.
pub names_of : List Warehouse → List String → List String
names_of [] names = names
names_of (w ∷ above) names = names_of above (w.name ∷ names)

climb-Chain :
    (ws : List Warehouse) (rounds : ℕ) (current : Option ℕ) (names : List String)
    (above : List Warehouse)
    → Chain ws current above
    → length above ≤ rounds
    → climb rounds false ws current names ≡ some (names_of above names)
unfolding climb names_of
climb-Chain ws zero current names [] top h = refl
climb-Chain ws (suc rounds) current names [] top h = refl
climb-Chain ws zero current names (w ∷ above) (up e c) h = absurd (omega arith)
climb-Chain ws (suc rounds) current names (w ∷ above) (up e c) h =
    rw (e, climb) (climb-Chain ws rounds w.parent_id (w.name ∷ names) above c (omega arith))

-- The place itself stays the last of the names.
last_name-names_of :
    (above : List Warehouse) (s : String) (names : List String)
    → last_name (names_of above (s ∷ names)) ≡ last_name (s ∷ names)
unfolding names_of last_name
last_name-names_of [] s names = refl
last_name-names_of (w ∷ above) s names = last_name-names_of above w.name (s ∷ names)

last_name-climb :
    (ws : List Warehouse) (rounds : ℕ) (current : Option ℕ) (s : String)
    (names result : List String)
    → climb rounds false ws current (s ∷ names) ≡ some result
    → last_name result ≡ last_name (s ∷ names)
unfolding climb last_name
last_name-climb ws zero current s names result h =
    ap last_name (sym (some-injective (s ∷ names) result h))
last_name-climb ws (suc rounds) none s names result h =
    ap last_name (sym (some-injective (s ∷ names) result h))
last_name-climb ws (suc rounds) (some id) s names result h =
    elim (Option-cases (find_unique id ws)) [
      | inl e ↦ absurd (cc (rw (e, climb) at h))
      | inr (w, e) ↦
          last_name-climb ws rounds w.parent_id w.name (s ∷ names) result (rw (e, climb) at h)
    ]

climb_first :
    (ws : List Warehouse) (rounds id : ℕ) (w : Warehouse)
    → find_unique id ws ≡ some w
    → climb (suc rounds) true ws (some id) []
      ≡ (if not w.is_active then none else climb rounds false ws w.parent_id (w.name ∷ []))
unfolding climb
climb_first ws rounds id w e = rw (e, climb) refl

climb_missing :
    (ws : List Warehouse) (rounds id : ℕ)
    → find_unique id ws ≡ none
    → climb (suc rounds) true ws (some id) [] ≡ none
unfolding climb
climb_missing ws rounds id e = rw (e, climb) refl

-- An active place whose chain of containing places ends after at most 64 places, itself included,
-- gets its own id and name, and the names along the chain, outermost first, joined by slashes.
pub load_warehouse_with_path_of_Chain :
    (ws : List Warehouse) (id : ℕ) (w : Warehouse) (above : List Warehouse)
    → find_unique id ws ≡ some w
    → w.is_active ≡ true
    → Chain ws w.parent_id above
    → length above ≤ 63
    → load_warehouse_with_path ws (some id)
      ≡ some (record { id = id; name = w.name; path = join (names_of above (w.name ∷ [])) })
unfolding load_warehouse_with_path
load_warehouse_with_path_of_Chain ws id w above found active chain short =
    ap (path_row id) (
      climb_first ws 63 id w found
      ∙ ap (λ b. if not b then none else climb 63 false ws w.parent_id (w.name ∷ [])) active
      ∙ climb-Chain ws 63 w.parent_id (w.name ∷ []) above chain short)
    ∙ ap (λ n. some (record { id = id; name = n; path = join (names_of above (w.name ∷ [])) }))
        (last_name-names_of above w.name [])

-- Whatever the places above it, a place that is loaded exists, is active, and comes with its own id
-- and name; a chain that is too long or runs in a circle shows in the path only.
pub load_warehouse_with_path_sound :
    (ws : List Warehouse) (id : ℕ) (p : WarehousePathRow)
    → load_warehouse_with_path ws (some id) ≡ some p
    → (w : Warehouse) × (find_unique id ws ≡ some w)
      × (w.is_active ≡ true)
      × (p.id ≡ id)
      × (p.name ≡ w.name)
unfolding load_warehouse_with_path
load_warehouse_with_path_sound ws id p h = elim (Option-cases (find_unique id ws)) [
  | inl e ↦ absurd (no_row (climb_missing ws 63 id e))
  | inr (w, e) ↦ elim (Bool-cases w.is_active) [
    | inr stopped ↦
        absurd
          (no_row (climb_first ws 63 id w e ∙ ap (λ b. if not b then none else rest w) stopped))
    | inl active ↦
        let start : climb 64 true ws (some id) [] ≡ rest w =
          climb_first ws 63 id w e ∙ ap (λ b. if not b then none else rest w) active in
        elim (Option-cases (rest w)) [
          | inl r ↦ absurd (no_row (start ∙ r))
          | inr (names, r) ↦
              let same : path_row id (some names) ≡ some p =
                sym (ap (path_row id) (start ∙ r)) ∙ h in
              let row : record { id = id; name = last_name names; path = join names } ≡ p =
                some-injective _ _ same in
              (
                w,
                e,
                active,
                sym (ap (λ q. q.id) row),
                sym (ap (λ q. q.name) row) ∙ last_name-climb ws 63 w.parent_id w.name [] names r,
              )
        ]
  ]
]
  where
    rest : Warehouse → Option (List String)
    rest w = climb 63 false ws w.parent_id (w.name ∷ [])

    no_row : ¬ (climb 64 true ws (some id) [] ≡ none)
    no_row e = cc (sym (ap (path_row id) e) ∙ h)
