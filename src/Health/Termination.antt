-- ===== src/Health/Termination.antt =====
-- apps/api/src/deployments/health-verifier.ts: the loop of the health check ends within its rounds,
-- if the guard ends and the interval is not zero, as the request's schema demands.
use docklane.Prelude.{
  ℕ, zero, suc, ◌+◌, ◌-◌, ◌≤◌, Option, none, some, ltb, leb, ltb→lt, ◌==◌, String, String-eq,
  Text-eq, contains, to_lower, arith,
}
use docklane.Net.{Url}
use docklane.Store.{HealthCheckConfig}
use docklane.Exec.{Env, M}
use docklane.Exec.Ends.{
  Ends, Ends-pure, Ends-raise, Ends-if, Ends-try, Ends-throw_if, Ends-bind, Ends-bind_attempt,
  Ends-bind_date_now, Ends-bind_sleep, Ends-ask,
}
use docklane.Health.Policy.{assert_public, assert_allowed}
use docklane.Health.Verifier.{
  or_invalid_url, redirect_target, is_redirect, safe_fetch, probe, verify_loop, verify, or_now,
  budget_ms,
}

module _ (env : Env) {t : ℕ} where
  or_invalid_url-Ends : (o : Option Url) → Ends t (or_invalid_url env o)
  unfolding or_invalid_url
  or_invalid_url-Ends none = Ends-raise _ (λ p. cc)
  or_invalid_url-Ends (some u) = Ends-pure _

  redirect_target-Ends :
      (current : Url) (location : Option String) → Ends t (redirect_target env current location)
  unfolding redirect_target
  redirect_target-Ends current none = Ends-raise _ (λ p. cc)
  redirect_target-Ends current (some l) =
      Ends-if (l == "") _ _ (λ _. Ends-raise _ (λ p. cc))
        (λ _. or_invalid_url-Ends (env.resolve_url l current))

  assert_public-Ends : (u : Url) → Ends t (assert_public env u)
  unfolding assert_public
  assert_public-Ends u = Ends-bind _ _ (Ends-throw_if _ _ (λ p. cc)) λ _.
      Ends-bind _ _ (Ends-throw_if _ _ (λ p. cc)) λ _.
        Ends-bind _ _ (Ends-try _ _ (Ends-ask env _) (λ e n. Ends-raise _ (λ p. cc)))
          λ a. Ends-throw_if _ _ (λ p. cc)

  assert_allowed-Ends : (u : Url) → Ends t (assert_allowed env u)
  unfolding assert_allowed
  assert_allowed-Ends u = Ends-bind _ _ (Ends-throw_if _ _ (λ p. cc)) λ _.
      Ends-if (contains env.private_hosts (to_lower u.host)) _ _ (λ _. Ends-pure _)
        (λ _. assert_public-Ends u)

  safe_fetch-Ends :
      (left : ℕ) (current : Url) (limit : ℕ) → Ends t (safe_fetch env left current limit)
  unfolding safe_fetch
  safe_fetch-Ends zero current limit = Ends-raise _ (λ p. cc)
  safe_fetch-Ends (suc left) current limit = Ends-bind _ _ (assert_allowed-Ends current) λ _.
      Ends-bind _ _ (Ends-ask env _) λ response.
        Ends-if (is_redirect response.status) _ _
          (λ _.
            Ends-bind _ _ (redirect_target-Ends current response.location)
              (λ next. safe_fetch-Ends left next limit))
          (λ _. Ends-pure _)

  probe-Ends : (config : HealthCheckConfig) (u : Url) → Ends t (probe env config u)
  unfolding probe
  probe-Ends config u =
      Ends-bind_attempt _ _ (safe_fetch-Ends 6 u config.timeout_ms) (λ r fueled. Ends-pure _)

-- Each round that is left pays for a millisecond of the time that is left.
verify_loop-Ends :
    (env : Env) (fuel t : ℕ) (config : HealthCheckConfig) (guard : M (Unit {0})) (u : Url)
    (deadline : ℕ) (since : Option ℕ) (failures : ℕ)
    → ((t' : ℕ) → Ends t' guard)
    → 1 ≤ config.interval_ms
    → deadline ≤ t + fuel
    → Ends t (verify_loop env fuel config guard u deadline since failures)
unfolding verify_loop
verify_loop-Ends env zero t config guard u deadline since failures k waits enough =
    Ends-bind_date_now _ λ now later.
      Ends-if (ltb now deadline) _ _
        (λ early. let h = ltb→lt now deadline early in ground (arith, h))
        (λ _. Ends-raise _ (λ p. cc))
verify_loop-Ends env (suc fuel) t config guard u deadline since failures k waits enough =
    Ends-bind_date_now _ λ now later.
      let again = λ (since' : Option ℕ) (failures' : ℕ) (start : ℕ) (after : now ≤ start).
        Ends-bind_sleep config.interval_ms
          (λ _. verify_loop env fuel config guard u deadline since' failures')
          (verify_loop-Ends env fuel (start + config.interval_ms) config guard u deadline since'
            failures' k waits (omega arith)) in
      Ends-if (ltb now deadline) _ _
        (λ _. Ends-bind _ _ (k now) λ _. Ends-bind _ _ (probe-Ends env config u) λ good.
          Ends-if good _ _
            (λ _. Ends-bind _ _ (k now) λ _. Ends-bind_date_now _ λ again_now after.
              Ends-if (leb config.stability_window_ms (again_now - or_now env since again_now)) _ _
                (λ _. k again_now)
                (λ _. again (some (or_now env since again_now)) failures again_now after))
            (λ _.
              Ends-if (ltb config.retries (failures + 1)) _ _ (λ _. Ends-raise _ (λ p. cc))
                (λ _. again none (failures + 1) now (omega arith))))
        (λ _. Ends-raise _ (λ p. cc))

pub verify-Ends :
    (env : Env) (t : ℕ) (config : HealthCheckConfig) (guard : M (Unit {0}))
    → ((t' : ℕ) → Ends t' guard)
    → 1 ≤ config.interval_ms
    → Ends t (verify env config guard)
unfolding verify
verify-Ends env t config guard k waits =
    Ends-bind _ _ (or_invalid_url-Ends env (env.parse_url config.url)) λ u.
      Ends-bind _ _ (assert_allowed-Ends env u) λ _. Ends-bind_date_now _ λ now later.
        verify_loop-Ends env (budget_ms config) now config guard u (now + budget_ms config) none 0 k
          waits (omega arith)
