-- ===== src/Examples/Deployments.antt =====
-- apps/api/src/deployments on the sample: a deployment that is verified, the endpoint of its health
-- check and the digest of its image.
use docklane.Prelude
use docklane.Prelude.{
  ◌≡◌, ◌↔◌, ◌≢◌, arith, refl, subst, some_inj, codes, ◌∷◌, true, false, some, to_lower,
}
use docklane.Exec
use docklane.Exec.{ok, err, stuck}
use docklane.Deployment.Termination.{verify_and_complete-fueled}
use docklane.Net.{v6}
use docklane.Health.Policy
use docklane.Health.Policy.Public.{Permitted, assert_allowed-Permitted}
use docklane.Health.Verifier
use docklane.Store.{DeploymentRecord, DeploymentStatus}
use docklane.Store.Operations
use docklane.Store.Deployments
use docklane.Deployment.Image
use docklane.Deployment.Image.Digest.{digest_from_image-docker_image_reference}
use docklane.Deployment.Classify
use docklane.Deployment.Persist
use docklane.Deployment.Verify
use docklane.Deployment.Evidence.Success.{Evidence, verify_and_complete-Evidence}
use docklane.Agent.Errors.{request, is_deterministic_agent_rejection}
use docklane.Agent.Errors.Deterministic.{Deterministic, is_deterministic_agent_rejection_iff}
use docklane.Examples.Sample.{env, url, digest, deployment, deploying, verification}

allowed : (Policy.assert_allowed env url deploying).0 ≡ ok tt
unfolding Exec.pure Exec.raise Exec.try Exec.◌>>=◌ Exec.throw_if Exec.ask Policy.is_private_address
    Policy.some_private Policy.ends_with Policy.assert_public Policy.assert_allowed Prelude.contains
    Prelude.to_lower Prelude.starts_with Prelude.lower
allowed = refl

assert_allowed-Permitted_example : Permitted env url
assert_allowed-Permitted_example = assert_allowed-Permitted env url deploying allowed

is_digest : Image.is_digest_tail (b'@' ∷ to_lower digest) ≡ true
unfolding Image.is_digest_tail Prelude.to_lower Prelude.lower Prelude.starts_with Prelude.every
is_digest = refl

digest_from_image-docker_image_reference_example :
    Image.digest_from_image (Image.docker_image_reference (codes "https://registry/web") digest)
    ≡ some (to_lower digest)
digest_from_image-docker_image_reference_example =
    digest_from_image-docker_image_reference (codes "https://registry/web") digest is_digest

is_deterministic_agent_rejection_iff_example :
    (is_deterministic_agent_rejection env.parse_json (request 503 "{}") ≡ true)
    ↔ Deterministic env.parse_json (request 503 "{}")
is_deterministic_agent_rejection_iff_example =
    is_deterministic_agent_rejection_iff env.parse_json (request 503 "{}")

-- The row as the verification leaves it.
abbrev succeeded : DeploymentRecord
succeeded = record deployment { status = DeploymentStatus.success; finished_at = some 1121 }

completed :
    Deployments.find_deployment "d1" (Verify.verify_and_complete env verification deploying).1.db
    ≡ some succeeded
unfolding Exec.pure Exec.raise Exec.try Exec.attempt Exec.lift Exec.◌>>=◌ Exec.on_result
    Exec.throw_if Exec.date_now Exec.sleep Exec.ask Exec.insertion Exec.statement Exec.query
    Exec.begin_transaction Exec.commit Exec.rollback Exec.transaction Policy.is_private_address
    Policy.some_private Policy.ends_with Policy.assert_public Policy.assert_allowed
    Verifier.or_invalid_url Verifier.redirect_target Verifier.safe_fetch Verifier.probe
    Verifier.verify_loop Verifier.verify Prelude.contains Prelude.to_lower Prelude.starts_with
    Prelude.lower Prelude.includes Prelude.find Prelude.keep Prelude.every Operations.find_operation
    Operations.update_rows Operations.mark_success Operations.audit Deployments.find_deployment
    Deployments.update_deployments Deployments.mark_success Image.image_contains_digest
    Classify.classify_deployment_snapshot Classify.tasks_match Classify.distinct Persist.or_throw
    Persist.require_deployment Persist.persist_success Verify.placement_decision
    Verify.with_placement Verify.classify_deployment_convergence Verify.inspect Verify.pass_success
    Verify.convergence_guard Verify.settle_final Verify.final_step Verify.health_step
    Verify.settle_first Verify.verify_round Verify.verify_loop Verify.verify_and_complete
completed = refl

deploying_found :
    (old : DeploymentRecord)
    → Deployments.find_deployment "d1" deploying.db ≡ some old
    → Deployments.is_success old.status ≡ false
unfolding Deployments.find_deployment Prelude.find
deploying_found old e = subst (λ d. Deployments.is_success d.status ≡ false) (some_inj e) refl

verify_and_complete-Evidence_example : Evidence env verification
verify_and_complete-Evidence_example =
    verify_and_complete-Evidence env verification deploying succeeded refl deploying_found completed
      refl

-- An IPv4 address of a private network, written as an IPv6 address, counts as public.
mapped : Policy.is_private_address (v6 (codes "::ffff:10.0.0.1")) ≡ false
unfolding Policy.is_private_address Prelude.to_lower Prelude.lower Prelude.starts_with
mapped = refl

verify_and_complete-fueled_example :
    ((Verify.verify_and_complete env verification deploying).0 ≢ err stuck)
    × ((Verifier.verify env verification.health
          (Verify.convergence_guard env verification)
          deploying).0
        ≢ err stuck)
verify_and_complete-fueled_example =
    verify_and_complete-fueled env verification deploying deploying (omega arith)
