-- ===== src/Degradation/Recovery.antt =====
-- Recovery in stages: `RecoveryOrchestrator` of backend/src/degradation/recovery.py. The orchestrator
-- holds the state service that it drives, so the service is a field of its record. The run id is
-- `recovery-` and eight hexadecimal digits of a fresh uuid; it is an argument here, the text itself.
pub mod Stages
pub mod Failures
use aq_trading.Prelude.{
  ℕ, suc, ◌/◌, Bool, true, false, Option, none, some, List, [], ◌∷◌, ◌++◌, if◌then◌else◌, or_else,
  ◌==◌, ◌&&◌,
}
use aq_trading.Prelude.Int.{ℤ, pos, negsuc, sub_ℕ}
use aq_trading.Prelude.Text.{Text, codes}
use aq_trading.Prelude.Result.{Result, ok, raised}
use aq_trading.Degradation.Types.{
  SystemMode, safe_mode, is_recovering_mode, RecoveryStage, connect_broker, catchup_marketdata,
  verify_risk, ready, RecoveryTrigger, EventType, ComponentSource, Severity, ReasonCode,
  run_details, completed_details, Clock, SystemEvent, create_event, second, DegradationConfig,
  ValueError,
}
use aq_trading.Degradation.Service.{
  SystemStateService, handle_event, force_mode, update_recovery_stage,
}

pub record RecoveryOrchestrator : Type 0 where
  pub config : DegradationConfig
  pub service : SystemStateService
  pub current_run_id : Option Text
  pub current_stage : Option RecoveryStage
  pub trigger : Option RecoveryTrigger
  pub operator_id : Option Text
  pub stage_start_time : Option ℕ

unfoldable pub new : DegradationConfig → SystemStateService → RecoveryOrchestrator
new config service = record {
  config = config;
  service = service;
  current_run_id = none;
  current_stage = none;
  trigger = none;
  operator_id = none;
  stage_start_time = none;
}

-- The stage behind another in `STAGE_ORDER`; `none` for the last.
unfoldable pub stage_after : RecoveryStage → Option RecoveryStage
stage_after connect_broker = some catchup_marketdata
stage_after catchup_marketdata = some verify_risk
stage_after verify_risk = some ready
stage_after ready = none

unfoldable pub clear_state : RecoveryOrchestrator → RecoveryOrchestrator
clear_state o = record o {
  current_run_id = none;
  current_stage = none;
  trigger = none;
  operator_id = none;
  stage_start_time = none;
}

-- `if self._current_run_id is not None: await self._cancel_current()`
unfoldable pub cancel_current : RecoveryOrchestrator → RecoveryOrchestrator
unfolding clear_state
cancel_current o = elim o.current_run_id [ none ↦ o | some _ ↦ clear_state o ]

-- The event by which `start_recovery` asks for the mode `recovering`.
abbrev pub start_event : Clock → Text → RecoveryTrigger → Option Text → SystemEvent
start_event t run_id trigger operator_id =
    create_event t EventType.recovered ComponentSource.system Severity.info
      ReasonCode.broker_reconnected (some (run_details run_id trigger operator_id)) none

-- A call of the service in the place of the one that the orchestrator holds.
abbrev pub with_service :
    RecoveryOrchestrator
    → SystemStateService × Result ValueError (Unit {0})
    → RecoveryOrchestrator × Result ValueError (Unit {0})
with_service o (s, r) = (record o { service = s }, r)

-- The request for `recovering`, where the service is in another mode.
unfoldable pub enter_recovering :
    Clock
    → Text
    → RecoveryTrigger
    → Option Text
    → RecoveryOrchestrator
    → RecoveryOrchestrator × Result ValueError (Unit {0})
unfolding is_recovering_mode handle_event create_event
enter_recovering t run_id trigger operator_id o =
    if is_recovering_mode o.service.mode
    then (o, ok tt)
    else with_service o (handle_event t (start_event t run_id trigger operator_id) o.service)

unfoldable pub start_recovery :
    Clock
    → Text
    → RecoveryTrigger
    → Option Text
    → RecoveryOrchestrator
    → RecoveryOrchestrator × Result ValueError Text
unfolding cancel_current enter_recovering update_recovery_stage
start_recovery t run_id trigger operator_id o =
    let started = record (cancel_current o) {
      current_run_id = some run_id;
      trigger = some trigger;
      operator_id = operator_id;
      current_stage = some connect_broker;
      stage_start_time = some t.mono;
    } in
    let (entered, r) = enter_recovering t run_id trigger operator_id started in
    let (staged, r') =
      with_service entered (update_recovery_stage connect_broker entered.service) in
    elim r [
      | raised e ↦ (entered, raised e)
      | ok _ ↦ elim r' [ raised e ↦ (staged, raised e) | ok _ ↦ (staged, ok run_id) ]
    ]

-- `==` of two texts
unfoldable pub same_text : Text → Text → Bool
same_text [] [] = true
same_text (c ∷ s) (d ∷ t) = c == d && same_text s t
same_text _ _ = false

unfoldable pub validate_run_id : Text → RecoveryOrchestrator → Bool
unfolding same_text
validate_run_id run_id o = elim o.current_run_id [
  | none ↦ false
  | some current ↦ same_text run_id current
]

-- `_check_ready_stable`, which passes on both sides of its test of the elapsed time
unfoldable pub check_ready_stable : RecoveryOrchestrator → Bool
check_ready_stable o = elim o.stage_start_time [ none ↦ false | some _ ↦ true ]

-- The three other checks are simulated and pass.
unfoldable pub check_stage : Option RecoveryStage → RecoveryOrchestrator → Bool
unfolding check_ready_stable
check_stage none o = false
check_stage (some connect_broker) o = true
check_stage (some catchup_marketdata) o = true
check_stage (some verify_risk) o = true
check_stage (some ready) o = check_ready_stable o

unfoldable pub complete_recovery :
    Clock → RecoveryOrchestrator → RecoveryOrchestrator × Result ValueError (Unit {0})
unfolding clear_state handle_event create_event
complete_recovery t o =
    let done =
      create_event t EventType.recovered ComponentSource.system Severity.info ReasonCode.all_healthy
        (some completed_details) none in
    with_service (clear_state o) (handle_event t done o.service)

abbrev pub returning :
    {A : Type 0}
    → A
    → RecoveryOrchestrator × Result ValueError (Unit {0})
    → RecoveryOrchestrator × Result ValueError A
returning a (o, r) = elim r [ raised e ↦ (o, raised e) | ok _ ↦ (o, ok a) ]

unfoldable pub move_to :
    Clock
    → RecoveryStage
    → RecoveryOrchestrator
    → RecoveryOrchestrator × Result ValueError (Unit {0})
unfolding update_recovery_stage
move_to t stage o =
    with_service (record o { current_stage = some stage; stage_start_time = some t.mono })
      (update_recovery_stage stage o.service)

-- The step from a stage whose check has passed.
unfoldable pub advance_from :
    Clock
    → Option RecoveryStage
    → RecoveryOrchestrator
    → RecoveryOrchestrator × Result ValueError Bool
unfolding stage_after complete_recovery move_to
advance_from t none o = (o, ok false)
advance_from t (some stage) o = elim (stage_after stage) [
  | none ↦ returning true (complete_recovery t o)
  | some next ↦ returning true (move_to t next o)
]

unfoldable pub advance_stage :
    Clock → Text → RecoveryOrchestrator → RecoveryOrchestrator × Result ValueError Bool
unfolding validate_run_id check_stage advance_from
advance_stage t run_id o =
    if validate_run_id run_id o && check_stage o.current_stage o
    then advance_from t o.current_stage o
    else (o, ok false)

-- `int(x)` of a number of seconds that is held in microseconds: it rounds towards zero.
unfoldable pub whole_seconds : ℤ → ℤ
whole_seconds (pos n) = pos (n / second)
whole_seconds (negsuc n) = sub_ℕ 0 (suc n / second)

-- `x or "system"`, where the empty text is falsy too
unfoldable pub operator_or_system : Option Text → Text
operator_or_system (some (c ∷ s)) = c ∷ s
operator_or_system _ = codes "system"

unfoldable pub abort_recovery :
    Clock → Text → Text → RecoveryOrchestrator → RecoveryOrchestrator × Result ValueError (Unit {0})
unfolding validate_run_id clear_state force_mode whole_seconds operator_or_system
abort_recovery t run_id reason o =
    let cleared = clear_state o in
    if validate_run_id run_id o
    then with_service cleared (
        force_mode t safe_mode (whole_seconds o.config.min_safe_mode_time)
          (operator_or_system cleared.operator_id) (codes "Recovery aborted: " ++ reason) o.service)
    else (o, ok tt)
