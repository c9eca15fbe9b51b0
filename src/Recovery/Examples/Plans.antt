-- ===== src/Recovery/Examples/Plans.antt =====
-- The theorems about replication/recovery/src/model.rs at a concrete plan.
use terrapi_vault.Common.{
  eqb, is_blank, first, second, checked_add, ◌≡◌, refl, true, ◌&&◌, some, List, [], ◌∷◌,
}
use terrapi_vault.Recovery.Model.{
  validate_baseline, Plan, health_failed, Event, authorize, fence, new, extends, validate_plan,
  advance, step, write_eligible, run,
}
use terrapi_vault.Recovery.Model.Shape.{IsShaped, run-IsShaped}
use terrapi_vault.Recovery.Model.Order.{Grows, step-Grows}
use terrapi_vault.Recovery.Model.Evidence.{InOrder, stages, write_eligible-InOrder}
use terrapi_vault.Recovery.Model.Progress.{whole_recovery, whole_recovery_eligible}
use terrapi_vault.Recovery.Examples.{lost_pair, replacement}

abbrev fencing_refused : List (Plan × Event)
fencing_refused = (replacement, authorize) ∷ (replacement, fence health_failed) ∷ []

run-IsShaped_example : IsShaped (run (new lost_pair) fencing_refused)
run-IsShaped_example = run-IsShaped lost_pair fencing_refused

step-Grows_example : Grows (new lost_pair) (record (new lost_pair) { plan = some replacement })
step-Grows_example =
    step-Grows (new lost_pair) replacement authorize
      (unfold step new validate_plan validate_baseline extends is_blank checked_add in refl)

write_eligible-InOrder_example :
    InOrder (stages replacement second first) (whole_recovery replacement)
write_eligible-InOrder_example =
    write_eligible-InOrder lost_pair replacement (whole_recovery replacement) 23 true second first (
      unfold run step new validate_plan validate_baseline extends is_blank checked_add advance
        write_eligible in
      refl)

whole_recovery_eligible_example :
    write_eligible (run (new lost_pair) (whole_recovery replacement)) replacement 22 true
    ≡ eqb 22 23 && true
whole_recovery_eligible_example =
    whole_recovery_eligible lost_pair replacement 22 true
      (unfold validate_baseline is_blank in refl) (unfold extends checked_add in refl)
