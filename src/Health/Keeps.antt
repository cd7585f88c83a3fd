-- ===== src/Health/Keeps.antt =====
-- apps/api/src/deployments/health-verifier.ts: a health check writes nothing of its own.
use docklane.Prelude.{
  ℕ, zero, suc, String, Option, none, some, ltb, leb, ◌+◌, ◌-◌, ◌==◌, String-eq, Text-eq, contains,
  to_lower,
}
use docklane.Net.{Url}
use docklane.Store.{Db, HealthCheckConfig}
use docklane.Exec.{Env, M, Requests}
use docklane.Exec.Keeps.{
  Keeps, Keeps-bind, Keeps-pure, Keeps-raise, Keeps-if, Keeps-try, Keeps-attempt, Keeps-throw_if,
  Keeps-date_now,
}
use docklane.Exec.Keeps.Tables.{Holds, Holds-ask, Holds-sleep}
use docklane.Health.Policy.{assert_public, assert_allowed}
use docklane.Health.Verifier.{
  or_invalid_url, redirect_target, is_redirect, safe_fetch, probe, verify_loop, verify, or_now,
}

module _ (env : Env) {Q : Requests → Db → Type 0} where
  or_invalid_url-Keeps : (o : Option Url) → Keeps (Holds Q) (or_invalid_url env o)
  unfolding or_invalid_url
  or_invalid_url-Keeps none = Keeps-raise _
  or_invalid_url-Keeps (some u) = Keeps-pure _

  redirect_target-Keeps :
      (current : Url) (location : Option String)
      → Keeps (Holds Q) (redirect_target env current location)
  unfolding redirect_target
  redirect_target-Keeps current none = Keeps-raise _
  redirect_target-Keeps current (some l) =
      Keeps-if (l == "") _ _ (λ _. Keeps-raise _)
        (λ _. or_invalid_url-Keeps (env.resolve_url l current))

  assert_public-Keeps : (u : Url) → Keeps (Holds Q) (assert_public env u)
  unfolding assert_public
  assert_public-Keeps u = Keeps-bind _ _ (Keeps-throw_if _ _) λ _.
      Keeps-bind _ _ (Keeps-throw_if _ _) λ _.
        Keeps-bind _ _ (Keeps-try _ _ (Holds-ask env _) (λ e. Keeps-raise _))
          λ a. Keeps-throw_if _ _

  assert_allowed-Keeps : (u : Url) → Keeps (Holds Q) (assert_allowed env u)
  unfolding assert_allowed
  assert_allowed-Keeps u = Keeps-bind _ _ (Keeps-throw_if _ _) λ _.
      Keeps-if (contains env.private_hosts (to_lower u.host)) _ _ (λ _. Keeps-pure _)
        (λ _. assert_public-Keeps u)

  safe_fetch-Keeps :
      (left : ℕ) (current : Url) (limit : ℕ) → Keeps (Holds Q) (safe_fetch env left current limit)
  unfolding safe_fetch
  safe_fetch-Keeps zero current limit = Keeps-raise _
  safe_fetch-Keeps (suc left) current limit = Keeps-bind _ _ (assert_allowed-Keeps current) λ _.
      Keeps-bind _ _ (Holds-ask env _) λ response.
        Keeps-if (is_redirect response.status) _ _
          (λ _.
            Keeps-bind _ _ (redirect_target-Keeps current response.location)
              (λ next. safe_fetch-Keeps left next limit))
          (λ _. Keeps-pure _)

  probe-Keeps : (config : HealthCheckConfig) (u : Url) → Keeps (Holds Q) (probe env config u)
  unfolding probe
  probe-Keeps config u =
      Keeps-bind _ _ (Keeps-attempt _ (safe_fetch-Keeps 6 u config.timeout_ms)) (λ r. Keeps-pure _)

  verify_loop-Keeps :
      (fuel : ℕ) (config : HealthCheckConfig) (guard : M (Unit {0})) (u : Url) (deadline : ℕ)
      (since : Option ℕ) (failures : ℕ)
      → Keeps (Holds Q) guard
      → Keeps (Holds Q) (verify_loop env fuel config guard u deadline since failures)
  unfolding verify_loop
  verify_loop-Keeps zero config guard u deadline since failures k =
      Keeps-bind _ _ Keeps-date_now
        λ now. Keeps-if (ltb now deadline) _ _ (λ _. Keeps-raise _) (λ _. Keeps-raise _)
  verify_loop-Keeps (suc fuel) config guard u deadline since failures k =
      Keeps-bind _ _ Keeps-date_now λ now.
        Keeps-if (ltb now deadline) _ _
          (λ _. Keeps-bind _ _ k λ _. Keeps-bind _ _ (probe-Keeps config u) λ good.
            Keeps-if good _ _
              (λ _. Keeps-bind _ _ k λ _. Keeps-bind _ _ Keeps-date_now λ later.
                Keeps-if (leb config.stability_window_ms (later - or_now env since later)) _ _
                  (λ _. k)
                  (λ _.
                    Keeps-bind _ _ (Holds-sleep env _)
                      (λ _. verify_loop-Keeps fuel config guard u deadline _ failures k)))
              (λ _.
                Keeps-if (ltb config.retries (failures + 1)) _ _ (λ _. Keeps-raise _)
                  (λ _.
                    Keeps-bind _ _ (Holds-sleep env _)
                      (λ _. verify_loop-Keeps fuel config guard u deadline none (failures + 1) k))))
          (λ _. Keeps-raise _)

  pub verify-Keeps :
      (config : HealthCheckConfig) (guard : M (Unit {0}))
      → Keeps (Holds Q) guard
      → Keeps (Holds Q) (verify env config guard)
  unfolding verify
  verify-Keeps config guard k =
      Keeps-bind _ _ (or_invalid_url-Keeps (env.parse_url config.url)) λ u.
        Keeps-bind _ _ (assert_allowed-Keeps u)
          λ _. Keeps-bind _ _ Keeps-date_now λ now. verify_loop-Keeps _ config guard u _ none 0 k
