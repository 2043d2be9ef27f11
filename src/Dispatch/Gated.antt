-- ===== src/Dispatch/Gated.antt =====
-- What the steps of a dispatch do to the state behind the gateway.
use depotflux_demo.Gateway.{ControllerResponse}
use depotflux_demo.Gateway.HttpClient.{
  ClientError, client_policy, client_unavailable, unavailable_policy, authentication_failed,
  gateway_unavailable, no_json,
}
use depotflux_demo.Prelude.{
  not, ◌||◌, ok, err, Bool-cases, ℕ, ◌≡◌, refl, ◌⊎◌, inl, inr, Bool, true, false, Option, none,
  some, List, String, Result,
}
use depotflux_demo.Floats.{Floats, float_zero}
use depotflux_demo.Dispatch.Evidence.{
  Check, CheckCode, DispatchAttempt, EvidenceLog, Submission, DispatchError, reject,
}
use depotflux_demo.Dispatch.Gate.{
  transmit, gateway_command, settle_error, settle_dispatch, SupervisoryGateway, Credential, Step,
  require, reject_common, reject_credential,
}

-- The state behind the gateway is what one call of it, with this setpoint and this hash, leaves.
pub record Transmitted ⦃F : Floats⦄ {S : Type 0} (gateway : Option (SupervisoryGateway S))
    (sub : Submission) (expires : ℕ) (result_sha256 : Option String)
    (setpoint_kw capacity_kw : F.Float) (s s' : S) : Type 0 where
  pub held : SupervisoryGateway S
  pub sha256 : String
  pub gateway_held : gateway ≡ some held
  pub hash_found : result_sha256 ≡ some sha256
  pub called : s' ≡ (held.dispatch (gateway_command sub expires sha256 setpoint_kw capacity_kw) s).1

module _ ⦃F : Floats⦄ {S : Type 0} where
  -- An outcome leaves the state behind the gateway alone, or `P` holds of it.
  pub record Gated (s : S) (P : S → Type 0)
      (outcome : Result DispatchError DispatchAttempt × (EvidenceLog × S)) : Type 0 where
    pub gate : (outcome.1.1 ≡ s) ⊎ P outcome.1.1

  pub unmoved-Gated :
      (P : S → Type 0) (r : Result DispatchError DispatchAttempt) (e : EvidenceLog) (s : S)
      → Gated s P (r, (e, s))
  unmoved-Gated P r e s = record { gate = inl refl }

  pub require-Gated :
      (P : S → Type 0) (condition : Bool) (code : CheckCode) (rejection next : Step S)
      (checks : List Check) (e : EvidenceLog) (s : S)
      → ((checks : List Check) → Gated s P (rejection checks (e, s)))
      → (condition ≡ true → (checks : List Check) → Gated s P (next checks (e, s)))
      → Gated s P (require condition code rejection next checks (e, s))
  unfolding require
  require-Gated P true code rejection next checks e s hr hn = hn refl _
  require-Gated P false code rejection next checks e s hr hn = hr _

  pub reject_common-Gated :
      (P : S → Type 0) (sub : Submission) (code : CheckCode) (sha256 : Option String)
      (setpoint_kw : Option F.Float) (checks : List Check) (e : EvidenceLog) (s : S)
      → Gated s P (reject_common sub code sha256 setpoint_kw checks (e, s))
  unfolding reject_common reject
  reject_common-Gated P sub code sha256 setpoint_kw checks e s = unmoved-Gated P _ _ s

  pub reject_credential-Gated :
      (P : S → Type 0) (sub : Submission) (credential : Credential) (sha256 : Option String)
      (checks : List Check) (e : EvidenceLog) (s : S)
      → Gated s P (reject_credential sub credential sha256 checks (e, s))
  unfolding reject_credential reject
  reject_credential-Gated P sub credential sha256 checks e s = unmoved-Gated P _ _ s

module _ ⦃F : Floats⦄ {S : Type 0} where
  -- The evidence of an answer leaves the state behind the gateway as the gateway left it.
  settle_dispatch_keeps :
      (sub : Submission) (setpoint_kw : F.Float) (sha256 : String) (checks : List Check)
      (e : EvidenceLog) (answer : Result ClientError ControllerResponse × S)
      → (settle_dispatch sub setpoint_kw sha256 checks e answer).1.1 ≡ answer.1
  unfolding settle_dispatch settle_error reject
  settle_dispatch_keeps sub setpoint_kw sha256 checks e (ok controller, s) = refl
  settle_dispatch_keeps sub setpoint_kw sha256 checks e (err (client_policy _), s) = refl
  settle_dispatch_keeps sub setpoint_kw sha256 checks e (err (client_unavailable _), s) = refl
  settle_dispatch_keeps sub setpoint_kw sha256 checks e (err (unavailable_policy _), s) = refl
  settle_dispatch_keeps sub setpoint_kw sha256 checks e (err authentication_failed, s) = refl
  settle_dispatch_keeps sub setpoint_kw sha256 checks e (err gateway_unavailable, s) = refl
  settle_dispatch_keeps sub setpoint_kw sha256 checks e (err no_json, s) = refl

  pub transmit-Gated :
      (gateway : Option (SupervisoryGateway S)) (is_sha256 : String → Bool) (sub : Submission)
      (expires : ℕ) (result_sha256 : Option String) (setpoint_kw capacity_kw : F.Float)
      (checks : List Check) (e : EvidenceLog) (s : S)
      → Gated s (Transmitted gateway sub expires result_sha256 setpoint_kw capacity_kw s) (
          transmit gateway is_sha256 sub expires result_sha256 setpoint_kw capacity_kw checks
            (e, s))
  unfolding transmit reject
  transmit-Gated none is_sha256 sub expires result_sha256 setpoint_kw capacity_kw checks e s =
      record { gate = inl refl }
  transmit-Gated (some gateway) is_sha256 sub expires none setpoint_kw capacity_kw checks e s =
      record { gate = inl refl }
  transmit-Gated (some gateway) is_sha256 sub expires (some sha256) setpoint_kw capacity_kw checks e
        s =
      elim (Bool-cases (not (F.lt float_zero capacity_kw) || not (is_sha256 sha256))) [
        | inl invalid ↦ rw invalid (record { gate = inl refl })
        | inr valid ↦ rw valid (record {
          gate = inr (record {
            held = gateway;
            sha256 = sha256;
            gateway_held = refl;
            hash_found = refl;
            called = settle_dispatch_keeps sub setpoint_kw sha256 checks e _;
          });
        })
      ]
