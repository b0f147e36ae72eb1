-- ===== src/Menu/Editor/Remove.antt =====
-- Taking a node out of the tree (`removeNode`).
use wbme.Common.{
  ℕ, ◌+◌, ◌≤◌, Bool, true, false, Option, none, some, List, String, str_eq, ◌≡◌, refl, ap, ◌∙◌,
  subst, arith, Bool-cases, Option-cases, inl, inr, ◌⊎◌,
}
use mathlib.Core.Option.{some-injective}
use wbme.Menu.Editor.{
  Node, Nodes, item, group, nil, cons, find_group_node, DragRef, drag_item, drag_group,
  matches_drag, Removal, Container, top_container, group_container, remove_here, remove_below,
  remove_node, behind, beside, in_group, map_removal, or_else,
}
use wbme.Menu.Editor.Counting.{
  Label, count, count_node, count-cons, is_group, is_ref, find_group_node-none, one,
}

-- What is left and what was taken are what there was; what was taken is what the reference names.
pub record IsTaken (drag : DragRef) (before : Nodes) (r : Removal) : Type 0 where
  pub counts : (q : Label → Bool) → count q r.next + count_node q r.removed ≡ count q before
  pub named : matches_drag drag r.removed ≡ true

remove_here-IsTaken :
    (drag : DragRef) (c : Container) (xs : Nodes) (r : Removal)
    → remove_here drag c xs ≡ some r
    → IsTaken drag xs r
unfolding remove_here
remove_here-IsTaken drag c nil r h = absurd (cc)
remove_here-IsTaken drag c (cons x rest) r h = elim (Bool-cases (matches_drag drag x)) [
  | inl e ↦
      let same = some-injective _ _ (rw (e, remove_here) at h) in
      subst (IsTaken drag (cons x rest)) same
        (record { counts = λ q. omega (arith, count-cons q x rest); named = e })
  | inr e ↦ elim (Option-cases (remove_here drag c rest)) [
    | inl k ↦ absurd (cc (rw (e, k, remove_here) at h))
    | inr (s, k) ↦
        let taken = remove_here-IsTaken drag c rest s k in
        let same = some-injective _ _ (rw (k) at (rw (e, remove_here) at h)) in
        subst (IsTaken drag (cons x rest)) same (record {
          counts = λ q. omega (arith, count-cons q x rest, count-cons q x s.next, taken.counts q);
          named = taken.named;
        })
  ]
]

or_else_cases {ℓ} :
    {A : Type ℓ} (a b : Option A) (x : A)
    → or_else a b ≡ some x
    → (a ≡ some x) ⊎ ((a ≡ none) × (b ≡ some x))
or_else_cases none b x h = inr (refl, h)
or_else_cases (some y) b x h = inl h

map_removal_inv :
    (f : Removal → Removal) (o : Option Removal) (r : Removal)
    → map_removal f o ≡ some r
    → (s : Removal) × (o ≡ some s) × (f s ≡ r)
map_removal_inv f none r h = absurd (cc)
map_removal_inv f (some s) r h = (s, refl, some-injective (f s) r h)

IsTaken-beside :
    (drag : DragRef) (x : Node) (rest : Nodes) (s r : Removal)
    → beside x s ≡ r
    → IsTaken drag rest s
    → IsTaken drag (cons x rest) r
IsTaken-beside drag x rest s r e taken = subst (IsTaken drag (cons x rest)) e (record {
  counts = λ q. omega (arith, count-cons q x rest, count-cons q x s.next, taken.counts q);
  named = taken.named;
})

IsTaken-in_group :
    (drag : DragRef) (k : String) (n : Option (List ℕ)) (cs rest : Nodes) (s r : Removal)
    → in_group k n rest s ≡ r
    → IsTaken drag cs s
    → IsTaken drag (cons (group k n cs) rest) r
unfolding count
IsTaken-in_group drag k n cs rest s r e taken =
    subst (IsTaken drag (cons (group k n cs) rest)) e
      (record { counts = λ q. omega (arith, taken.counts q); named = taken.named })

remove_below-IsTaken :
    (drag : DragRef) (xs : Nodes) (r : Removal) → remove_below drag xs ≡ some r → IsTaken drag xs r
unfolding remove_below
remove_below-IsTaken drag nil r h = absurd (cc)
remove_below-IsTaken drag (cons (item k n) rest) r h =
    let (s, e, f) = map_removal_inv (beside (item k n)) (remove_below drag rest) r h in
    IsTaken-beside drag (item k n) rest s r f (remove_below-IsTaken drag rest s e)
remove_below-IsTaken drag (cons (group k n cs) rest) r h =
    elim (or_else_cases
      (map_removal (in_group k n rest)
        (or_else (remove_here drag (group_container k) cs) (remove_below drag cs)))
      (map_removal (beside (group k n cs)) (remove_below drag rest)) r h) [
        | inr (_, g) ↦
            let (s, e, f) = map_removal_inv (beside (group k n cs)) (remove_below drag rest) r g in
            IsTaken-beside drag (group k n cs) rest s r f (remove_below-IsTaken drag rest s e)
        | inl g ↦
            let (s, e, f) =
              map_removal_inv (in_group k n rest)
                (or_else (remove_here drag (group_container k) cs) (remove_below drag cs)) r g in
            IsTaken-in_group drag k n cs rest s r f
              (elim (or_else_cases (remove_here drag (group_container k) cs) (remove_below drag cs)
                s e) [
                  | inl a ↦ remove_here-IsTaken drag (group_container k) cs s a
                  | inr (_, a) ↦ remove_below-IsTaken drag cs s a
                ])
      ]

pub remove_node-IsTaken :
    (drag : DragRef) (xs : Nodes) (r : Removal) → remove_node drag xs ≡ some r → IsTaken drag xs r
unfolding remove_node
remove_node-IsTaken drag xs r h =
    elim (or_else_cases (remove_here drag top_container xs) (remove_below drag xs) r h) [
      | inl a ↦ remove_here-IsTaken drag top_container xs r a
      | inr (_, a) ↦ remove_below-IsTaken drag xs r a
    ]

-- What a reference names counts as one.
named-count :
    (drag : DragRef) (x : Node) → matches_drag drag x ≡ true → 1 ≤ count_node (is_ref drag) x
unfolding count_node
named-count (drag_item key) (item k n) h = rw h (omega arith)
named-count (drag_group key) (group k n cs) h = rw h (omega arith)
named-count (drag_item key) (group k n cs) h = absurd (cc)
named-count (drag_group key) (item k n) h = absurd (cc)

find_skip :
    (key : String) (x : Node) (rest : Nodes)
    → count_node (is_group key) x ≡ 0
    → find_group_node key (cons x rest) ≡ find_group_node key rest
unfolding find_group_node count_node
find_skip key (item k n) rest h = refl
find_skip key (group k n cs) rest h =
    let empty = find_group_node-none key cs (omega arith) in
    elim (Bool-cases (str_eq k key)) [
      | inl e ↦ absurd (omega (arith, ap one e))
      | inr e ↦ rw (e, find_group_node) (ap (λ o. or_else o (find_group_node key rest)) empty)
    ]

find_inside :
    (key k : String) (n : Option (List ℕ)) (cs rest : Nodes) (d : Node)
    → str_eq k key ≡ false
    → find_group_node key cs ≡ some d
    → find_group_node key (cons (group k n cs) rest) ≡ some d
unfolding find_group_node
find_inside key k n cs rest d e f =
    rw (e, find_group_node) (ap (λ o. or_else o (find_group_node key rest)) f)

find_match :
    (key : String) (x : Node) (rest : Nodes)
    → matches_drag (drag_group key) x ≡ true
    → find_group_node key (cons x rest) ≡ some x
unfolding find_group_node
find_match key (item k n) rest h = absurd (cc)
find_match key (group k n cs) rest h = rw (h, find_group_node) refl

no_group : (key k : String) (n : Option (List ℕ)) → count_node (is_group key) (item k n) ≡ 0
unfolding count_node
no_group key k n = refl

not_one : {b : Bool} → one b ≡ 0 → b ≡ false
not_one {b} h = ground arith

module _ (key : String) where
  -- A tree that a node was taken from holds at least one of its name.
  pub taken-count :
      (xs : Nodes) (r : Removal) → IsTaken (drag_group key) xs r → 1 ≤ count (is_group key) xs
  taken-count xs r taken =
      omega (arith, taken.counts (is_group key), named-count (drag_group key) r.removed taken.named)

  remove_here-find :
      (c : Container) (xs : Nodes) (r : Removal)
      → count (is_group key) xs ≡ 1
      → remove_here (drag_group key) c xs ≡ some r
      → find_group_node key xs ≡ some r.removed
  unfolding remove_here
  remove_here-find c nil r u h = absurd (cc)
  remove_here-find c (cons x rest) r u h = elim (Bool-cases (matches_drag (drag_group key) x)) [
    | inl e ↦
        let same = some-injective _ _ (rw (e, remove_here) at h) in
        find_match key x rest e ∙ ap (λ (s : Removal). some s.removed) same
    | inr e ↦
        let (s, g, f) =
          map_removal_inv (behind x) (remove_here (drag_group key) c rest) r
            (rw (e, remove_here) at h) in
        let taken = taken-count rest s (remove_here-IsTaken (drag_group key) c rest s g) in
        find_skip key x rest (omega (arith, count-cons (is_group key) x rest))
        ∙ remove_here-find c rest s (omega (arith, count-cons (is_group key) x rest)) g
        ∙ ap (λ (t : Removal). some t.removed) f
  ]

  remove_below-find :
      (xs : Nodes) (r : Removal)
      → count (is_group key) xs ≡ 1
      → remove_below (drag_group key) xs ≡ some r
      → find_group_node key xs ≡ some r.removed
  unfolding remove_below count
  remove_below-find nil r u h = absurd (cc)
  remove_below-find (cons (item k n) rest) r u h =
      let (s, e, f) =
        map_removal_inv (beside (item k n)) (remove_below (drag_group key) rest) r h in
      find_skip key (item k n) rest (no_group key k n)
      ∙ remove_below-find rest s (omega arith) e
      ∙ ap (λ (t : Removal). some t.removed) f
  remove_below-find (cons (group k n cs) rest) r u h =
      elim (or_else_cases
        (map_removal (in_group k n rest) (
          or_else (remove_here (drag_group key) (group_container k) cs)
            (remove_below (drag_group key) cs)))
        (map_removal (beside (group k n cs)) (remove_below (drag_group key) rest)) r h) [
          | inr (_, g) ↦
              let (s, e, f) =
                map_removal_inv (beside (group k n cs)) (remove_below (drag_group key) rest) r g in
              let taken = taken-count rest s (remove_below-IsTaken (drag_group key) rest s e) in
              find_skip key (group k n cs) rest
                (omega (arith, count-cons (is_group key) (group k n cs) rest))
              ∙ remove_below-find rest s (omega arith) e
              ∙ ap (λ (t : Removal). some t.removed) f
          | inl g ↦
              let (s, e, f) =
                map_removal_inv (in_group k n rest)
                  (or_else (remove_here (drag_group key) (group_container k) cs)
                    (remove_below (drag_group key) cs))
                  r g in
              elim (or_else_cases (remove_here (drag_group key) (group_container k) cs)
                (remove_below (drag_group key) cs) s e) [
                  | inl a ↦
                      let taken =
                        taken-count cs s
                          (remove_here-IsTaken (drag_group key) (group_container k) cs s a) in
                      find_inside key k n cs rest s.removed (not_one (omega arith))
                        (remove_here-find (group_container k) cs s (omega arith) a)
                      ∙ ap (λ (t : Removal). some t.removed) f
                  | inr (_, a) ↦
                      let taken = taken-count cs s (remove_below-IsTaken (drag_group key) cs s a) in
                      find_inside key k n cs rest s.removed (not_one (omega arith))
                        (remove_below-find cs s (omega arith) a)
                      ∙ ap (λ (t : Removal). some t.removed) f
                ]
        ]

  -- Where the key is unique, the group that is taken out is the one that a search finds.
  pub remove_node-find :
      (xs : Nodes) (r : Removal)
      → count (is_group key) xs ≡ 1
      → remove_node (drag_group key) xs ≡ some r
      → find_group_node key xs ≡ some r.removed
  unfolding remove_node
  remove_node-find xs r u h =
      elim (or_else_cases (remove_here (drag_group key) top_container xs)
        (remove_below (drag_group key) xs) r h) [
          | inl a ↦ remove_here-find top_container xs r u a
          | inr (_, a) ↦ remove_below-find xs r u a
        ]
