-- ===== src/Approval/Scope/Laws.antt =====
-- When an approver may see and process a request.
use wbme.Common.{
  ap, Bool-cases, inl, inr, str_eq, false, ◌≢◌, sym, eq_iff, some-injective, ℕ, ◌≡◌, refl, ◌↔◌,
  true, false, Option, none, some, List, [], ◌∷◌, arith, All, String, ok,
}
use wbme.Approval.Scope.{
  ApproverScope, DataScope, is_company_only_request_type, company_only, covers_each, covers, has,
  scope_covers_all, to_approver_scope, resolve_object_department_ids, assert_scope_covers_all,
}

-- An object is covered by a department closure: it has a department, and that is in the closure.
abbrev pub InClosure : List ℕ → Option ℕ → Type 0
InClosure ids o = (d : ℕ) × (o ≡ some d) × (has ids d ≡ true)

covers_each_iff :
    (ids : List ℕ) (os : List (Option ℕ)) → (covers_each ids os ≡ true) ↔ All (InClosure ids) os
unfolding covers_each
covers_each_iff ids [] = (λ _. tt, λ _. refl)
covers_each_iff ids (none ∷ os) = (λ e. cc, λ h. cc (h.0.1))
covers_each_iff ids (some d ∷ os) = (
  λ e. ((d, refl, ground arith), (covers_each_iff ids os).0 (ground arith)),
  λ h. ground (arith, (covers_each_iff ids os).1 h.1, h.0.1, h.0.2),
)

-- The objects that a request must have covered: those that it names, or the applicant's department
-- if it names none.
abbrev pub Covered : List ℕ → (objects : List (Option ℕ)) → (applicant : Option ℕ) → Type 0
Covered ids [] applicant = InClosure ids applicant
Covered ids (o ∷ os) applicant = All (InClosure ids) (o ∷ os)

-- The types that only the whole company's approvers process.
abbrev pub IsOpen : Option String → Type 0
IsOpen request_type = (request_type ≢ some "STOCK_IN") × (request_type ≢ some "STOCK_CHANGE")

abbrev pub named_objects : Option (List (Option ℕ)) → List (Option ℕ)
named_objects none = []
named_objects (some os) = os

only_iff :
    (ids : List ℕ) (o : Option ℕ)
    → (covers (ApproverScope.department ids) (o ∷ []) ≡ true) ↔ InClosure ids o
only_iff ids o = let c = covers_each_iff ids (o ∷ []) in ((λ e. (c.0 e).0), (λ h. c.1 (h, tt)))

resolved_iff :
    (ids : List ℕ) (os : Option (List (Option ℕ))) (applicant : Option ℕ)
    → (covers (ApproverScope.department ids) (resolve_object_department_ids os applicant) ≡ true)
      ↔ Covered ids (named_objects os) applicant
unfolding resolve_object_department_ids
resolved_iff ids none applicant = only_iff ids applicant
resolved_iff ids (some []) applicant = only_iff ids applicant
resolved_iff ids (some (o ∷ os)) applicant = covers_each_iff ids (o ∷ os)

no_type : (u t : String) → str_eq u t ≡ false → some t ≢ some u
no_type u t e z = absurd (cc (e, (eq_iff u t).1 (sym (some-injective z))))

company_only_iff :
    (request_type : Option String) → (company_only request_type ≡ false) ↔ IsOpen request_type
unfolding is_company_only_request_type
company_only_iff none = ((λ e. ((λ z. cc z), (λ z. cc z))), λ h. refl)
company_only_iff (some t) =
    let a = eq_iff "STOCK_IN" t in
    let b = eq_iff "STOCK_CHANGE" t in
    (
      λ e. (
        λ z. no_type "STOCK_IN" t (ground arith) z,
        λ z. no_type "STOCK_CHANGE" t (ground arith) z,
      ),
      λ h. elim (Bool-cases (str_eq "STOCK_IN" t)) [
        | inl x ↦ absurd (h.0 (ap some (sym (a.0 x))))
        | inr x ↦ elim (Bool-cases (str_eq "STOCK_CHANGE" t)) [
          | inl y ↦ absurd (h.1 (ap some (sym (b.0 y))))
          | inr y ↦ ground arith
        ]
      ],
    )

-- An approver limited to a closure of departments may process a request exactly if its type is
-- neither STOCK_IN nor STOCK_CHANGE, and every object that it names has a department in the
-- closure, or the applicant has one if it names no object; a list of no objects counts as none.
pub assert_scope_covers_all_iff :
    (ids : List ℕ) (os : Option (List (Option ℕ))) (applicant : Option ℕ)
    (request_type : Option String)
    → (assert_scope_covers_all
          (to_approver_scope (some DataScope.department) ids)
          (resolve_object_department_ids os applicant)
          request_type
        ≡ ok tt)
      ↔ (IsOpen request_type × Covered ids (named_objects os) applicant)
unfolding assert_scope_covers_all scope_covers_all to_approver_scope
assert_scope_covers_all_iff ids os applicant request_type =
    let c = resolved_iff ids os applicant in
    let k = company_only_iff request_type in
    ((λ e. (k.0 (ground arith), c.0 (ground arith))), λ h. ground (arith, k.1 h.0, c.1 h.1))
