-- ===== src/Examples/Classifiers.antt =====
-- apps/api/src/deployments/deployment.service.ts: the classifiers on the sample.
use docklane.Prelude.{◌≡◌, ◌↔◌, false}
use docklane.Exec.{success}
use docklane.Deployment.Classify.{classify_deployment_snapshot, classify_rollback_snapshot}
use docklane.Deployment.Classify.RolledBack.{HasRolledBack, classify_rollback-success_iff}
use docklane.Deployment.Classify.Converged.{Observed, HasSettled, classify-success_iff}
use docklane.Examples.Sample.{after, plan, digest}

classify-success_iff_example :
    (classify_deployment_snapshot after plan digest false ≡ success)
    ↔ (Observed after plan digest × HasSettled false after.service.update_state)
classify-success_iff_example = classify-success_iff after plan digest false

classify_rollback-success_iff_example :
    (classify_rollback_snapshot after plan digest ≡ success)
    ↔ (Observed after plan digest × HasRolledBack after.service.update_state)
classify_rollback-success_iff_example = classify_rollback-success_iff after plan digest
