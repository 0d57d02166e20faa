-- ===== src/Degradation/Recovery/Failures.antt =====
-- Recoveries that do not go as the source's comments say.
use aq_trading.Prelude.{
  ◌≡◌, ◌≢◌, ◌+◌, ◌*◌, ◌≤◌, refl, true, Option, none, some, arith, ◌++◌, ℕ, suc, zero, ◌/◌, ◌<◌,
}
use aq_trading.Prelude.Int.{pos}
use aq_trading.Prelude.Text.{Text, codes}
use aq_trading.Prelude.Result.{ok, raised}
use aq_trading.Degradation.Types.{
  normal, recovering, safe_mode, connect_broker, ready, RecoveryTrigger, Clock, second,
  not_recovering,
}
use aq_trading.Degradation.Service.{ForceOverrideState, positive}
use aq_trading.Degradation.Recovery.{
  RecoveryOrchestrator, start_recovery, advance_stage, abort_recovery,
}
use aq_trading.Degradation.Recovery.Stages.{validate_run_id_lem}

-- While an override of a mode other than `recovering` is in force, starting a recovery raises
-- `ValueError` and the service is as before, but the orchestrator keeps the new run id and its first stage: it
-- says that a recovery is under way.
pub start_recovery_overridden :
    (t : Clock) (run_id : Text) (trigger : RecoveryTrigger) (operator : Option Text)
    (o : RecoveryOrchestrator) (f : ForceOverrideState)
    → o.service.force_override ≡ some f
    → t.mono ≤ f.start_time_mono + f.ttl_seconds * second
    → o.service.mode ≢ recovering
    → let (o', r) = start_recovery t run_id trigger operator o in
      (r ≡ raised (not_recovering o.service.mode))
      × (o'.service ≡ o.service)
      × (o'.current_run_id ≡ some run_id)
      × (o'.current_stage ≡ some connect_broker)
unfolding start_recovery
start_recovery_overridden t run_id trigger operator o f held le other = ground arith

-- A recovery that stands at its last stage is completed to the mode `normal` whatever mode the
-- service has come to in the meantime, `halt` included, unless an override is in force.
pub advance_stage_ends_halt :
    (t : Clock) (run_id : Text) (o : RecoveryOrchestrator)
    → o.current_run_id ≡ some run_id
    → o.current_stage ≡ some ready
    → o.stage_start_time ≢ none
    → o.service.force_override ≡ none
    → let (o', r) = advance_stage t run_id o in
      (r ≡ ok true) × (o'.service.mode ≡ normal) × (o'.service.gate.mode ≡ normal)
unfolding advance_stage
advance_stage_ends_halt t run_id o run at_ready started free =
    ground (arith, validate_run_id_lem run_id o run)

positive_lem : (n : ℕ) → 0 < n → positive (pos n) ≡ some n
unfolding positive
positive_lem zero h = elim h [ ]
positive_lem (suc n) h = refl

-- Aborting the recovery under way, with a minimum of at least one second in safe mode, ends it and forces
-- `safe_mode` for the whole seconds of that minimum, from any mode. The override is filed under the operator
-- `system`, whoever started the recovery.
pub abort_recovery_forces :
    (t : Clock) (run_id reason : Text) (m : ℕ) (o : RecoveryOrchestrator)
    → o.current_run_id ≡ some run_id
    → o.config.min_safe_mode_time ≡ pos m
    → second ≤ m
    → let (o', r) = abort_recovery t run_id reason o in
      (r ≡ ok tt)
      × (o'.current_run_id ≡ none)
      × (o'.service.mode ≡ safe_mode)
      × (o'.service.gate.mode ≡ safe_mode)
      × ((f : ForceOverrideState) × (o'.service.force_override ≡ some f)
          × (f.operator_id ≡ codes "system")
          × (f.ttl_seconds ≡ m / second)
          × (f.start_time_mono ≡ t.mono))
unfolding abort_recovery
abort_recovery_forces t run_id reason m o run least le =
    let valid = validate_run_id_lem run_id o run in
    let seconds = positive_lem (m / second) (omega arith) in
    (
      ground (arith, valid, seconds),
      ground (arith, valid, seconds),
      ground (arith, valid, seconds),
      ground (arith, valid, seconds),
      (
        record {
          mode = safe_mode;
          ttl_seconds = m / second;
          operator_id = codes "system";
          reason = codes "Recovery aborted: " ++ reason;
          start_time_mono = t.mono;
          start_time_wall = t.wall;
        },
        ground (arith, valid, seconds),
        refl,
        refl,
        refl,
      ),
    )
