-- ===== src/Health/Verifier.antt =====
-- apps/api/src/deployments/health-verifier.ts. The rounds of the loop run on fuel: each waits
-- `interval_ms`, which is at least 1 in a configuration that the request's schema accepts.
use Prim.Native.String.{◌++◌ as concat}
use docklane.Prelude.{
  ℕ, zero, suc, ◌+◌, ◌-◌, ◌*◌, String, decimal, Bool, false, ◌||◌, Option, none, some, ◌==◌, ℕ-eq,
  String-eq, ltb, leb, if◌then◌else◌,
}
use docklane.Net.{Url, Response}
use docklane.Store.{HealthCheckConfig}
use docklane.Exec.{
  ok, err, error, stuck, M, Env, pure, raise, attempt, ◌>>=◌, ◌>>◌, date_now, sleep, ask,
}
use docklane.Health.Policy.{assert_allowed}

abbrev pub is_redirect : ℕ → Bool
is_redirect status =
    status == 301 || status == 302 || status == 303 || status == 307 || status == 308

abbrev pub budget_ms : HealthCheckConfig → ℕ
budget_ms config =
    config.stability_window_ms + (config.retries + 1) * (config.timeout_ms + config.interval_ms)

module _ (env : Env) where
  unfoldable pub or_invalid_url : Option Url → M Url
  or_invalid_url none = raise (error "Invalid URL")
  or_invalid_url (some url) = pure url

  unfoldable pub redirect_target : Url → Option String → M Url
  redirect_target current none = raise (error "Health redirect did not include a Location header")
  redirect_target current (some location) =
      if location == ""
      then raise (error "Health redirect did not include a Location header")
      else or_invalid_url (env.resolve_url location current)

  -- `left` counts the requests that are left of the six.
  unfoldable pub safe_fetch : ℕ → Url → ℕ → M Response
  safe_fetch zero current timeout_ms = raise (error "Health endpoint exceeded the redirect limit")
  safe_fetch (suc left) current timeout_ms = do
    assert_allowed env current
    response ← ask env (λ n. env.fetch n current timeout_ms)
    if is_redirect response.status
        then (do next ← redirect_target current response.location; safe_fetch left next timeout_ms)
        else pure response

  -- One probe: any error is a probe that is not good.
  unfoldable pub probe : HealthCheckConfig → Url → M Bool
  probe config url = do
    fetched ← attempt (safe_fetch 6 url config.timeout_ms)
    pure (elim fetched [ ok response ↦ response.status == config.expected_status | err e ↦ false ])

  -- `stableSince ??= Date.now()`
  abbrev pub or_now : Option ℕ → ℕ → ℕ
  or_now none now = now
  or_now (some t) now = t

  unfoldable pub verify_loop :
      ℕ
      → HealthCheckConfig
      → M (Unit {0})
      → Url
      → (deadline : ℕ) → (stable_since : Option ℕ) → (failures : ℕ) → M (Unit {0})
  verify_loop zero config assert_converged url deadline stable_since failures = do
    now ← date_now
    if ltb now deadline
        then raise stuck
        else raise (error "Health endpoint did not remain stable for the required window")
  verify_loop (suc fuel) config assert_converged url deadline stable_since failures = do
    now ← date_now
    if ltb now deadline
        then (do
          assert_converged
          good ← probe config url
          if good
              then (do
                assert_converged
                later ← date_now
                if leb config.stability_window_ms (later - or_now stable_since later)
                    then assert_converged
                    else (do
                      sleep config.interval_ms
                      verify_loop fuel config assert_converged url deadline
                          (some (or_now stable_since later)) failures))
              else if ltb config.retries (failures + 1)
              then raise (
                  error (
                    concat "Health verification failed after "
                      (concat (decimal (failures + 1)) " unsuccessful checks")))
              else (do
                sleep config.interval_ms
                verify_loop fuel config assert_converged url deadline none (failures + 1)))
        else raise (error "Health endpoint did not remain stable for the required window")

  unfoldable pub verify : HealthCheckConfig → M (Unit {0}) → M (Unit {0})
  verify config assert_converged = do
    url ← or_invalid_url (env.parse_url config.url)
    assert_allowed env url
    now ← date_now
    verify_loop (budget_ms config) config assert_converged url (now + budget_ms config) none 0
