-- ===== src/Agent/Errors/Deterministic.antt =====
-- apps/api/src/agent/agent-client.ts: which errors of a mutating request count as its rejection.
use docklane.Prelude.{
  ℕ, ◌≡◌, ◌↔◌, inl, inr, refl, String, true, Option, some, ◌==◌, ℕ-eq, String-eq, Option-eq,
  nat_eq_iff, option_eq_iff, arith, subst, sym, Bool-cases,
}
use docklane.Prelude.Json.{Json}
use docklane.Agent.Errors.{
  AgentError, request, pre_dispatch, other, MaintenanceCode, body_code, is_guard_pair,
  is_deterministic_agent_rejection,
}

-- The agent's own refusals, and the three with which its admission guard refuses.
pub data Deterministic (parse_json : String → Option Json) : AgentError → Type 0 where
  not_sent : (code : MaintenanceCode) → Deterministic parse_json (pre_dispatch code)
  invalid : (body : String) → Deterministic parse_json (request 400 body)
  stale : (body : String) → Deterministic parse_json (request 409 body)
  wrong_cluster :
      (body : String)
      → body_code (parse_json body) ≡ some "CLUSTER_PRECONDITION_FAILED"
      → Deterministic parse_json (request 412 body)
  no_cluster :
      (body : String)
      → body_code (parse_json body) ≡ some "CLUSTER_PRECONDITION_REQUIRED"
      → Deterministic parse_json (request 428 body)
  no_identity :
      (body : String)
      → body_code (parse_json body) ≡ some "CLUSTER_IDENTITY_UNAVAILABLE"
      → Deterministic parse_json (request 503 body)

module _ (parse_json : String → Option Json) where
  complete :
      (e : AgentError)
      → Deterministic parse_json e
      → is_deterministic_agent_rejection parse_json e ≡ true
  unfolding is_deterministic_agent_rejection
  complete _ (not_sent code) = refl
  complete _ (invalid body) = refl
  complete _ (stale body) = refl
  complete _ (wrong_cluster body h) = rw h refl
  complete _ (no_cluster body h) = rw h refl
  complete _ (no_identity body h) = rw h refl

  sound_guard :
      (status : ℕ) (body : String)
      → is_guard_pair status (body_code (parse_json body)) ≡ true
      → Deterministic parse_json (request status body)
  sound_guard status body h =
      let code = body_code (parse_json body) in
      elim (Bool-cases (status == 412)) [
        | inl e ↦
            subst (λ s. Deterministic parse_json (request s body))
              (sym ((nat_eq_iff status 412).0 e))
              (wrong_cluster body (
                ground (
                  arith,
                  nat_eq_iff status 412,
                  nat_eq_iff status 428,
                  nat_eq_iff status 503,
                  e,
                  option_eq_iff code (some "CLUSTER_PRECONDITION_FAILED"),
                )))
        | inr n ↦ elim (Bool-cases (status == 428)) [
          | inl e ↦
              subst (λ s. Deterministic parse_json (request s body))
                (sym ((nat_eq_iff status 428).0 e))
                (no_cluster body (
                  ground (
                    arith,
                    nat_eq_iff status 428,
                    nat_eq_iff status 503,
                    e,
                    n,
                    option_eq_iff code (some "CLUSTER_PRECONDITION_REQUIRED"),
                  )))
          | inr m ↦
              subst (λ s. Deterministic parse_json (request s body))
                (sym ((nat_eq_iff status 503).0 (ground (arith, n, m))))
                (no_identity body
                  (ground (arith, n, m, option_eq_iff code (some "CLUSTER_IDENTITY_UNAVAILABLE"))))
        ]
      ]

  sound :
      (e : AgentError)
      → is_deterministic_agent_rejection parse_json e ≡ true
      → Deterministic parse_json e
  unfolding is_deterministic_agent_rejection
  sound (pre_dispatch code) h = not_sent code
  sound (other m) h = cc
  sound (request status body) h = elim (Bool-cases (status == 400)) [
    | inl e ↦
        subst (λ s. Deterministic parse_json (request s body)) (sym ((nat_eq_iff status 400).0 e))
          (invalid body)
    | inr n ↦ elim (Bool-cases (status == 409)) [
      | inl e ↦
          subst (λ s. Deterministic parse_json (request s body)) (sym ((nat_eq_iff status 409).0 e))
            (stale body)
      | inr m ↦ sound_guard status body (ground (arith, n, m))
    ]
  ]

-- An error counts as a rejection exactly if it is one that was raised before anything was sent, an
-- answer 400 or 409 with any body, or one of the three answers of the admission guard with its code; no
-- other answer and no failure of the transport does.
pub is_deterministic_agent_rejection_iff :
    (parse_json : String → Option Json) (e : AgentError)
    → (is_deterministic_agent_rejection parse_json e ≡ true) ↔ Deterministic parse_json e
is_deterministic_agent_rejection_iff parse_json e = (sound parse_json e, complete parse_json e)
