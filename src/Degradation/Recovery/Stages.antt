-- ===== src/Degradation/Recovery/Stages.antt =====
-- A recovery from its start to its end.
use aq_trading.Prelude.{
  ◌≡◌, ◌≢◌, refl, true, false, Option, none, some, arith, ◌∷◌, [], List, Option-cases, Bool-cases,
  inl, inr, ap, sym, ◌∙◌,
}
use aq_trading.Prelude.Text.{Text}
use aq_trading.Prelude.Result.{ok}
use aq_trading.Degradation.Types.{
  normal, recovering, RecoveryStage, connect_broker, catchup_marketdata, verify_risk, ready,
  RecoveryTrigger, Clock,
}
use aq_trading.Degradation.Service.Sync.{IsSynced}
use aq_trading.Degradation.Recovery.{
  RecoveryOrchestrator, start_recovery, advance_stage, validate_run_id, same_text, stage_after,
  abort_recovery,
}

same_text_refl : (s : Text) → same_text s s ≡ true
unfolding same_text
same_text_refl [] = refl
same_text_refl (c ∷ s) = ground (arith, same_text_refl s)

pub same_text-eq : (s t : Text) → same_text s t ≡ true → s ≡ t
unfolding same_text
same_text-eq [] [] h = refl
same_text-eq [] (d ∷ t) h = cc
same_text-eq (c ∷ s) [] h = cc
same_text-eq (c ∷ s) (d ∷ t) h = ground (arith, same_text-eq s t)

-- A recovery is under way at a stage: the orchestrator, the service and the gate agree on it, and no
-- override is in force.
pub record IsAt (run_id : Text) (stage : RecoveryStage) (o : RecoveryOrchestrator) : Type 0 where
  pub run : o.current_run_id ≡ some run_id
  pub at_stage : o.current_stage ≡ some stage
  pub started : o.stage_start_time ≢ none
  pub free : o.service.force_override ≡ none
  pub service_mode : o.service.mode ≡ recovering
  pub service_stage : o.service.stage ≡ some stage
  pub gate_mode : o.service.gate.mode ≡ recovering
  pub gate_stage : o.service.gate.stage ≡ some stage

-- From any mode, with the gate in step and no override in force, a recovery starts: the call returns the
-- run id and the recovery is at its first stage, whatever recovery was under way before.
pub start_recovery-IsAt :
    (t : Clock) (run_id : Text) (trigger : RecoveryTrigger) (operator : Option Text)
    (o : RecoveryOrchestrator)
    → IsSynced o.service
    → o.service.force_override ≡ none
    → let (o', r) = start_recovery t run_id trigger operator o in
      (r ≡ ok run_id) × IsAt run_id connect_broker o'
unfolding start_recovery
start_recovery-IsAt t run_id trigger operator o h free = ground arith

pub validate_run_id_lem :
    (run_id : Text) (o : RecoveryOrchestrator)
    → o.current_run_id ≡ some run_id
    → validate_run_id run_id o ≡ true
unfolding validate_run_id
validate_run_id_lem run_id o h = rw h (same_text_refl run_id)

not-validate_run_id :
    (run_id : Text) (o : RecoveryOrchestrator)
    → o.current_run_id ≢ some run_id
    → validate_run_id run_id o ≡ false
unfolding validate_run_id
not-validate_run_id run_id o h = elim (Option-cases o.current_run_id) [
  | inl idle ↦ rw idle
  | inr (current, e) ↦ elim (Bool-cases (same_text run_id current)) [
    | inl same ↦ absurd (h (e ∙ ap some (sym (same_text-eq run_id current same))))
    | inr other ↦ rw e other
  ]
]

-- With the run id of the recovery under way, an advance takes it from any stage but the last to the stage
-- behind it.
pub advance_stage-IsAt :
    (t : Clock) (run_id : Text) (stage next : RecoveryStage) (o : RecoveryOrchestrator)
    → stage_after stage ≡ some next
    → IsAt run_id stage o
    → let (o', r) = advance_stage t run_id o in (r ≡ ok true) × IsAt run_id next o'
unfolding advance_stage
advance_stage-IsAt t run_id stage next o after h =
    ground (arith, validate_run_id_lem run_id o h.run)

-- The recovery is over, and the system is in the mode `normal`.
pub record IsRecovered (o : RecoveryOrchestrator) : Type 0 where
  pub idle : o.current_run_id ≡ none
  pub no_stage : o.current_stage ≡ none
  pub service_normal : o.service.mode ≡ normal
  pub gate_normal : o.service.gate.mode ≡ normal
  pub no_service_stage : o.service.stage ≡ none

advance_stage-finishes :
    (t : Clock) (run_id : Text) (o : RecoveryOrchestrator)
    → IsAt run_id ready o
    → let (o', r) = advance_stage t run_id o in (r ≡ ok true) × IsRecovered o'
unfolding advance_stage
advance_stage-finishes t run_id o h = ground (arith, validate_run_id_lem run_id o h.run)

-- Advances with one run id, one for each clock.
unfoldable pub advance_all : List Clock → Text → RecoveryOrchestrator → RecoveryOrchestrator
advance_all [] run_id o = o
advance_all (t ∷ ts) run_id o = advance_all ts run_id (advance_stage t run_id o).0

-- A recovery that is started with the gate in step and without an override, and advanced four times with
-- its run id, ends in the mode `normal`, in the service and in the gate, with no recovery under way. It does so
-- at any clocks and for any configuration, since the checks of the stages pass always in this source: three of
-- them are simulated, and the last one passes also before the systems have been stable for
-- `recovery_stable_seconds`, the wait that its documentation promises.
pub recovery_completes :
    (t t₁ t₂ t₃ t₄ : Clock) (run_id : Text) (trigger : RecoveryTrigger) (operator : Option Text)
    (o : RecoveryOrchestrator)
    → IsSynced o.service
    → o.service.force_override ≡ none
    → IsRecovered
        (advance_all (t₁ ∷ t₂ ∷ t₃ ∷ t₄ ∷ []) run_id (start_recovery t run_id trigger operator o).0)
unfolding advance_all stage_after
recovery_completes t t₁ t₂ t₃ t₄ run_id trigger operator o h free =
    let begun = start_recovery-IsAt t run_id trigger operator o h free in
    let o₀ = (start_recovery t run_id trigger operator o).0 in
    let first = advance_stage-IsAt t₁ run_id connect_broker catchup_marketdata o₀ refl begun.1 in
    let o₁ = (advance_stage t₁ run_id o₀).0 in
    let second_step = advance_stage-IsAt t₂ run_id catchup_marketdata verify_risk o₁ refl first.1 in
    let o₂ = (advance_stage t₂ run_id o₁).0 in
    let third = advance_stage-IsAt t₃ run_id verify_risk ready o₂ refl second_step.1 in
    (advance_stage-finishes t₄ run_id (advance_stage t₃ run_id o₂).0 third.1).1

-- An advance or an abort with another run id than that of the recovery under way, or with any run id when
-- none is under way, changes nothing; the advance reports failure.
pub stale_run_id_ignored :
    (t : Clock) (run_id reason : Text) (o : RecoveryOrchestrator)
    → o.current_run_id ≢ some run_id
    → (advance_stage t run_id o ≡ (o, ok false)) × (abort_recovery t run_id reason o ≡ (o, ok tt))
unfolding advance_stage abort_recovery
stale_run_id_ignored t run_id reason o stale =
    let rejected = not-validate_run_id run_id o stale in (rw rejected, rw rejected)
