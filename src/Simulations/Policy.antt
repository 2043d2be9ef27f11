-- ===== src/Simulations/Policy.antt =====
-- What a simulated write has passed, and what its frame says.
use mathlib.Core.Path.{subst}
use depotflux_demo.Prelude.{
  ◌%◌, ◌^◌, ◌≤◌, ◌≡◌, refl, sym, ap, ◌∙◌, inl, inr, Bool, true, false, leb, Option, none, some,
  String, Result, ok, err, guard, ◌>>◌, Option-cases, Result-cases, Bool-cases, arith,
}
use depotflux_demo.Prelude.Int.{ℤ, pos}
use depotflux_demo.Floats.{Floats, float_zero}
use depotflux_demo.Runs.Status.{succeeded, is}
use depotflux_demo.Runs.Json.{flag, list, dict, Items, Fields, get}
use depotflux_demo.Runs.Row.{RunRow}
use depotflux_demo.Approvals.{ApprovalRow, approved}
use depotflux_demo.Control.{validate_site_setpoint, encode_site_power_write}
use depotflux_demo.Control.RoundTrip.{validate_site_setpoint-accepted}
use depotflux_demo.Schedule.{
  Conversions, items_length, result_of, as_list, validation_passed, minutes_of, capacity_of,
  net_energy,
}
use depotflux_demo.Dispatch.{is_approved, is_bound}
use depotflux_demo.Dispatch.Checks.{
  is_approved_lem, is_bound_lem, validation_passed_lem, as_list_lem,
}
use depotflux_demo.Approvals.Binding.{is_succeeded}
use depotflux_demo.Simulations.{
  SimulationRow, is_positive, SimulationCall, power_series, simulation_row, frame_setpoint,
  check_input, check_candidate,
}

-- A result that satisfies `P`, or an error.
pub record Yields {E A : Type 0} (P : A → Type 0) (r : Result E A) : Type 0 where
  pub yields : (a : A) → r ≡ ok a → P a

err-Yields : {E A : Type 0} (P : A → Type 0) (e : E) → Yields P (err e)
err-Yields {E} {A} P e = record { yields = λ a h. absurd (raised a h) }
  where
    raised : (a : A) → ◌≡◌ {A = Result E A} (err e) (ok a) → ⊥
    raised a h = cc h

ok-Yields : {E A : Type 0} (P : A → Type 0) (a : A) → P a → Yields {E = E} P (ok a)
ok-Yields {E} {A} P a p = record { yields = λ b h. subst P (same b h) p }
  where
    same : (b : A) → ◌≡◌ {A = Result E A} (ok a) (ok b) → a ≡ b
    same b h = cc h

weaken-Yields :
    {E A : Type 0} (P Q : A → Type 0) (r : Result E A)
    → Yields P r
    → ((a : A) → P a → Q a)
    → Yields Q r
weaken-Yields P Q r h f = record { yields = λ a e. f a (h.yields a e) }

guard-Yields :
    {E B : Type 0} (P : B → Type 0) (b : Bool) (e : E) (r : Result E B)
    → (b ≡ true → Yields P r)
    → Yields P (guard b e >> r)
guard-Yields P true e r h = h refl
guard-Yields P false e r h = err-Yields P e

module _ ⦃F : Floats⦄ (py : Conversions) (load : String → String → Option (Fields F.Float))
    (call : SimulationCall) (run : RunRow F.Float) where
  -- What the setpoint is, and the frame for it.
  pub record IsFramed (buy sell : Items F.Float) (row : SimulationRow) : Type 0 where
    pub input : Fields F.Float
    pub minutes : ℤ
    pub capacity_kw : F.Float
    pub net : F.Float
    pub input_loaded : load run.request.input_reference run.request.input_sha256 ≡ some input
    pub minutes_found : minutes_of py (get "timestep_minutes" input) ≡ some minutes
    pub minutes_positive : is_positive minutes ≡ true
    pub capacity_found : capacity_of py (get "chargers" input) ≡ some capacity_kw
    pub net_found : net_energy py call.interval_index buy sell ≡ some net
    pub derived : row.setpoint_kw ≡ F.div (F.mul net (F.of_int (pos 60))) (F.of_int minutes)
    pub setpoint_finite : F.is_finite row.setpoint_kw ≡ true
    pub capacity_finite : F.is_finite capacity_kw ≡ true
    pub capacity_positive : F.lt float_zero capacity_kw ≡ true
    pub within_capacity : F.lt (F.add capacity_kw F.tolerance) (F.abs row.setpoint_kw) ≡ false
    pub framed :
        encode_site_power_write row.setpoint_kw (call.interval_index % 2 ^ 16) 1 ≡ ok row.frame
    pub for_run : row.run_id ≡ run.id
    pub for_interval : row.interval_index ≡ call.interval_index
    pub for_result : row.result_sha256 ≡ run.result_sha256

  validated :
      (value capacity setpoint : F.Float)
      → validate_site_setpoint value capacity ≡ ok setpoint
      → (setpoint ≡ value) × (validate_site_setpoint value capacity ≡ ok value)
  unfolding validate_site_setpoint
  validated value capacity setpoint h = ground (arith, h)

  frame_setpoint-IsFramed :
      (buy sell : Items F.Float) (input : Fields F.Float) (minutes : ℤ) (capacity_kw net : F.Float)
      → load run.request.input_reference run.request.input_sha256 ≡ some input
      → minutes_of py (get "timestep_minutes" input) ≡ some minutes
      → is_positive minutes ≡ true
      → capacity_of py (get "chargers" input) ≡ some capacity_kw
      → net_energy py call.interval_index buy sell ≡ some net
      → Yields (IsFramed buy sell) (frame_setpoint call run net minutes capacity_kw)
  unfolding frame_setpoint simulation_row
  frame_setpoint-IsFramed buy sell input minutes capacity_kw net e1 e2 h e3 e4 =
      let P = IsFramed buy sell in
      let power = F.div (F.mul net (F.of_int (pos 60))) (F.of_int minutes) in
      elim (Result-cases (validate_site_setpoint power capacity_kw)) [
        | inr (error, refused) ↦ rw (refused, frame_setpoint) (err-Yields P _)
        | inl (setpoint_kw, accepted) ↦
            let (same, valid) = validated power capacity_kw setpoint_kw accepted in
            let (finite, bounded, positive, within) =
              (validate_site_setpoint-accepted power capacity_kw).0 valid in
            elim (Result-cases (encode_site_power_write power (call.interval_index % 2 ^ 16) 1)) [
              | inr (error, refused) ↦ rw (valid, frame_setpoint) (rw refused (err-Yields P _))
              | inl (frame, framed) ↦
                  rw (valid, frame_setpoint)
                    (rw framed (
                      ok-Yields P _ (record {
                        input = input;
                        minutes = minutes;
                        capacity_kw = capacity_kw;
                        net = net;
                        input_loaded = e1;
                        minutes_found = e2;
                        minutes_positive = h;
                        capacity_found = e3;
                        net_found = e4;
                        derived = refl;
                        setpoint_finite = finite;
                        capacity_finite = bounded;
                        capacity_positive = positive;
                        within_capacity = within;
                        framed = framed;
                        for_run = refl;
                        for_interval = refl;
                        for_result = refl;
                      })))
            ]
      ]

  check_input-IsFramed :
      (buy sell : Items F.Float)
      → Yields (IsFramed buy sell) (check_input py load call run (buy, sell))
  unfolding check_input
  check_input-IsFramed buy sell =
      let P = IsFramed buy sell in
      elim (Option-cases (load run.request.input_reference run.request.input_sha256)) [
        | inl missing ↦ rw (missing, check_input) (err-Yields P _)
        | inr (input, e1) ↦
            rw (e1, check_input)
              (elim (Option-cases (minutes_of py (get "timestep_minutes" input))) [
                | inl missing ↦ rw missing (err-Yields P _)
                | inr (minutes, e2) ↦ rw e2 (elim (Bool-cases (is_positive minutes)) [
                  | inr none_left ↦ rw none_left (err-Yields P _)
                  | inl h ↦ rw h (elim (Option-cases (capacity_of py (get "chargers" input))) [
                    | inl missing ↦ rw missing (err-Yields P _)
                    | inr (capacity_kw, e3) ↦
                        rw e3 (elim (Option-cases (net_energy py call.interval_index buy sell)) [
                          | inl missing ↦ rw missing (err-Yields P _)
                          | inr (net, e4) ↦ rw e4 (
                              guard-Yields P (F.is_finite net) _ _ λ _.
                                frame_setpoint-IsFramed buy sell input minutes capacity_kw net e1 e2
                                  h e3 e4)
                        ])
                  ])
                ])
              ])
      ]

  -- Everything that a planned row has behind it.
  pub record IsSimulated (approval : Option ApprovalRow) (row : SimulationRow) : Type 0 where
    pub decision : ApprovalRow
    pub validation : Fields F.Float
    pub buy : Items F.Float
    pub sell : Items F.Float
    pub approval_found : approval ≡ some decision
    pub approval_given : decision.decision ≡ approved
    pub has_succeeded : run.status ≡ succeeded
    pub hash_bound : run.result_sha256 ≡ some decision.result_sha256
    pub validation_found : get "validation" (result_of run) ≡ some (dict validation)
    pub validation_passed : get "passed" validation ≡ some (flag true)
    pub buy_found : get "w_buy" (result_of run) ≡ some (list buy)
    pub sell_found : get "w_sell" (result_of run) ≡ some (list sell)
    pub same_length : items_length buy ≡ items_length sell
    pub in_horizon : call.interval_index ≤ items_length buy
    pub framed : IsFramed buy sell row

  power_series_lem :
      (buys sells : Option (Items F.Float)) (buy sell : Items F.Float)
      → power_series buys sells ≡ some (buy, sell)
      → (buys ≡ some buy) × (sells ≡ some sell) × (items_length buy ≡ items_length sell)
  unfolding power_series
  power_series_lem none sells buy sell h = cc h
  power_series_lem (some b) none buy sell h = cc h
  power_series_lem (some b) (some s) buy sell h = ground (arith, h)

  check_candidate-Yields :
      (approval : Option ApprovalRow)
      → Yields (IsSimulated approval) (check_candidate py load call run approval)
  unfolding check_candidate
  check_candidate-Yields approval =
      let P = IsSimulated approval in
      guard-Yields P (is_approved approval) _ _ λ h1.
        guard-Yields P (is run.status succeeded) _ _ λ h2.
          guard-Yields P (is_bound run approval) _ _ λ h3.
            elim (Option-cases (validation_passed (get "validation" (result_of run)))) [
              | inl broken ↦ rw (broken, check_candidate) (err-Yields P _)
              | inr (false, v) ↦ rw (v, check_candidate) (err-Yields P _)
              | inr (true, v) ↦
                  rw (v, check_candidate)
                    (elim (Option-cases (
                      power_series (as_list (get "w_buy" (result_of run)))
                        (as_list (get "w_sell" (result_of run))))) [
                          | inl missing ↦ rw missing (err-Yields P _)
                          | inr ((buy, sell), found) ↦ rw found (
                              guard-Yields P (leb call.interval_index (items_length buy)) _ _
                                λ within.
                                  let (decision, held, agreed) = is_approved_lem approval h1 in
                                  let (fields, w, passed) =
                                    validation_passed_lem (get "validation" (result_of run)) v in
                                  let (b, l, same) = power_series_lem _ _ buy sell found in
                                  weaken-Yields (IsFramed buy sell) P
                                    (check_input py load call run (buy, sell))
                                    (check_input-IsFramed buy sell)
                                    λ row framed. record {
                                      decision = decision;
                                      validation = fields;
                                      buy = buy;
                                      sell = sell;
                                      approval_found = held;
                                      approval_given = agreed;
                                      has_succeeded = is_succeeded run.status h2;
                                      hash_bound =
                                          is_bound_lem run decision
                                            (ap (λ o. is_bound run o) (sym held) ∙ h3);
                                      validation_found = w;
                                      validation_passed = passed;
                                      buy_found = as_list_lem _ buy b;
                                      sell_found = as_list_lem _ sell l;
                                      same_length = same;
                                      in_horizon = ground arith;
                                      framed = framed;
                                    })
                        ])
            ]

  -- A candidate that passes the checks of a simulated write has a given approval with the hash
  -- of its result, succeeded, passed its validation and covers the interval with two series of
  -- equal length; its input has a positive interval duration and a finite positive capacity;
  -- and the row is for this run, interval and result, with the setpoint derived from them,
  -- finite and within the capacity, and the frame that encodes it.
  pub check_candidate-IsSimulated :
      (approval : Option ApprovalRow) (row : SimulationRow)
      → check_candidate py load call run approval ≡ ok row
      → IsSimulated approval row
  check_candidate-IsSimulated approval row e = (check_candidate-Yields approval).yields row e
