-- ===== src/Approval/PendingLimit/Laws.antt =====
-- Which errors of a submission are reported as a reached limit.
use wbme.Common.{
  false, none, some, Result, ok, err, ◌≡◌, ◌↔◌, ◌⊎◌, inl, inr, any, str_eq, arith, eq_iff,
}
use wbme.Approval.Types.{pending_limit_reached}
use wbme.Approval.PendingLimit.{
  Target, Thrown, business, object, primitive, target_columns, map_pending_limit_error,
  with_pending_limit_mapping,
}

-- A submission reports that the limit of pending requests is reached exactly if it failed with that
-- very error, or with a unique-index conflict (P2002) that does not involve the application number.
pub with_pending_limit_mapping_iff :
    {T : Type 0} (run : Result Thrown T)
    → (with_pending_limit_mapping run ≡ err (business pending_limit_reached)) ↔ (
        (run ≡ err (business pending_limit_reached))
        ⊎ ((t : Target) × (run ≡ err (object (some "P2002") t))
            × (any (λ c. str_eq c "application_no") (target_columns t) ≡ false)))
unfolding with_pending_limit_mapping map_pending_limit_error
with_pending_limit_mapping_iff (ok r) = (λ e. cc, λ h. elim h [ inl e ↦ cc | inr (t, e, _) ↦ cc ])
with_pending_limit_mapping_iff (err (business e)) =
    (λ h. inl h, λ h. elim h [ inl e ↦ e | inr (t, e, _) ↦ cc ])
with_pending_limit_mapping_iff (err primitive) =
    (λ h. inl h, λ h. elim h [ inl e ↦ e | inr (t, e, _) ↦ cc ])
with_pending_limit_mapping_iff (err (object none t)) =
    (λ h. inl h, λ h. elim h [ inl e ↦ e | inr (t, e, _) ↦ cc ])
with_pending_limit_mapping_iff (err (object (some code) t)) = (
  λ h. ground (arith, eq_iff code "P2002"),
  λ h. elim h [ inl e ↦ cc | inr (u, e, a) ↦ ground (arith, eq_iff code "P2002") ],
)
