-- ===== src/Http/Status.antt =====
-- The route `controller_status` of aggregator_demo/app.py: any role may call it, and the gateway behind
-- it commands the safe state where the heartbeat is stale.
use depotflux_demo.Prelude.{
  ◌≡◌, refl, ◌⊎◌, inl, inr, Option, none, some, String, Result, ok, err, Option-cases, Result-cases,
}
use depotflux_demo.Floats.{Floats}
use depotflux_demo.Control.{authenticate_control_key}
use depotflux_demo.Gateway.{StatusResponse}
use depotflux_demo.Gateway.HttpClient.{ClientError}
use depotflux_demo.Dispatch.Gate.{SupervisoryGateway}
use depotflux_demo.Http.{
  Answer, answered, refused, Body, status_body, Service, Application, key_accepted,
}
use depotflux_demo.Http.Lists.{dispatch_key_answer}

module _ ⦃F : Floats⦄ {S : Type 0} (app : Application S) where
  -- The `except Exception` at the end of the route.
  abbrev heartbeat_lost : Answer Body
  heartbeat_lost = refused 503 "controller_heartbeat_lost"

  unfoldable pub status_answer : Result ClientError StatusResponse → Answer Body
  status_answer (ok status) = answered 200 (status_body status)
  status_answer (err _) = heartbeat_lost

  unfoldable pub read_controller_status : Option String → Service S → Answer Body × Service S
  read_controller_status control_key s =
      elim (key_accepted app.texts.is_ascii control_key app.control_api_key) [
        | none ↦ (heartbeat_lost, s)
        | some _ ↦ elim (authenticate_control_key control_key app.control_api_key) [
          | err _ ↦ (dispatch_key_answer app.control_api_key, s)
          | ok _ ↦ elim app.control_gateway [
            | none ↦ (heartbeat_lost, s)
            | some gateway ↦
                let r = gateway.controller_status s.site in
                (status_answer r.0, record s { site = r.1 })
          ]
        ]
      ]

  -- The control key is the configured one, and the gateway has read the status: its state is what
  -- this has left, and nothing else has changed.
  pub record StatusRead (control_key : Option String) (s s' : Service S) : Type 0 where
    pub has_key : authenticate_control_key control_key app.control_api_key ≡ ok tt
    pub gateway : SupervisoryGateway S
    pub is_gateway : app.control_gateway ≡ some gateway
    pub left : s' ≡ record s { site = (gateway.controller_status s.site).1 }

  pub read_controller_status-StatusRead :
      (control_key : Option String) (s : Service S)
      → ((read_controller_status control_key s).1 ≡ s)
        ⊎ StatusRead control_key s (read_controller_status control_key s).1
  unfolding read_controller_status
  read_controller_status-StatusRead control_key s =
      elim (Option-cases (key_accepted app.texts.is_ascii control_key app.control_api_key)) [
        | inl e ↦ inl (rw (read_controller_status, e) refl)
        | inr (_, e) ↦
            elim (Result-cases (authenticate_control_key control_key app.control_api_key)) [
              | inr (_, e') ↦ inl (rw (read_controller_status, e, e') refl)
              | inl (tt, e') ↦ elim (Option-cases app.control_gateway) [
                | inl e'' ↦ inl (rw (read_controller_status, e, e', e'') refl)
                | inr (gateway, e'') ↦ inr (record {
                  has_key = e';
                  gateway = gateway;
                  is_gateway = e'';
                  left = rw (read_controller_status, e, e', e'') refl;
                })
              ]
            ]
      ]
