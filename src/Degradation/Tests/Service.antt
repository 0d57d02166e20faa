-- ===== src/Degradation/Tests/Service.antt =====
-- Runs of the state service at concrete inputs, and the theorems applied to them.
use mathlib.Core.List.Perm
use aq_trading.Prelude.{◌+◌, ◌*◌, ◌≤◌, ◌≡◌, refl, none, [], ◌∷◌, All}
use aq_trading.Prelude.Int.{pos}
use aq_trading.Prelude.Text.{codes}
use aq_trading.Prelude.Result.{ok}
use aq_trading.Degradation.Types.{
  normal, safe_mode_disconnected, halt, recovering, mode_priority, ReasonCode, Clock, SystemEvent,
  create_event, second,
}
use aq_trading.Degradation.Gate
use aq_trading.Degradation.Gate.{TradingGate, update_mode, allows}
use aq_trading.Degradation.Bus
use aq_trading.Degradation.Bus.{EventBus, publish, dispatch_loop}
use aq_trading.Degradation.Service
use aq_trading.Degradation.Service.{
  SystemStateService, ForceOverrideState, decision_matrix, handle_event, force_mode,
  update_recovery_stage,
}
use aq_trading.Degradation.Service.Sync.{IsSynced, new-IsSynced, handle_event-IsSynced}
use aq_trading.Degradation.Service.Override.{force_mode-holds}
use aq_trading.Degradation.Service.Escalation.{
  run, required_mode, IsFailure, run-required, run-escalates, run-perm,
}
use aq_trading.Degradation.Service.History.{Accounts}
use aq_trading.Degradation.Tests.Fixtures.{
  at, gate, quiet_bus, service, event, stale, disconnect, running,
}

-- Two failures take a running system to the more severe of the two modes.
run_two : (run (stale ∷ disconnect ∷ []) running).mode ≡ safe_mode_disconnected
unfolding run handle_event Service.new Gate.new Bus.new create_event
run_two = refl

running_free : running.force_override ≡ none
unfolding handle_event Service.new Gate.new Bus.new create_event
running_free = refl

two_failures : All IsFailure (stale ∷ disconnect ∷ [])
unfolding create_event decision_matrix Service.is_release
two_failures = (refl, (refl, tt))

run-required_example :
    (run (stale ∷ disconnect ∷ []) running).mode
    ≡ required_mode running.mode (stale ∷ disconnect ∷ [])
run-required_example = run-required (stale ∷ disconnect ∷ []) running running_free

run-perm_example :
    (run (stale ∷ disconnect ∷ []) running).mode ≡ (run (disconnect ∷ stale ∷ []) running).mode
run-perm_example = run-perm running running_free two_failures (Perm.swap _ _ _)

run-escalates_example :
    let es = stale ∷ disconnect ∷ [] in
    (mode_priority running.mode ≤ mode_priority (run es running).mode)
    × All
        (λ x. mode_priority (decision_matrix x.1.reason_code) ≤ mode_priority (run es running).mode)
        es
run-escalates_example = run-escalates (stale ∷ disconnect ∷ []) running running_free two_failures

service-IsSynced : IsSynced service
service-IsSynced = new-IsSynced gate quiet_bus

running-IsSynced : IsSynced running
running-IsSynced =
    (handle_event-IsSynced (at 0) (event ReasonCode.all_healthy) service service-IsSynced).0

handle_event-IsSynced_example :
    let (s', r) = handle_event (at 1) stale.1 running in IsSynced s' × (r ≡ ok tt)
handle_event-IsSynced_example = handle_event-IsSynced (at 1) stale.1 running running-IsSynced

force_mode-holds_example :
    let (s', r) = force_mode (at 5) halt (pos 60) (codes "ana") (codes "drill") running in
    (r ≡ ok tt)
    × (s'.mode ≡ halt)
    × (s'.gate.mode ≡ halt)
    × ((u : Clock) (e : SystemEvent) → u.mono ≤ 5 + 60 * second → handle_event u e s' ≡ (s', ok tt))
force_mode-holds_example =
    force_mode-holds (at 5) 59 (codes "ana") (codes "drill") running refl refl halt (λ e. cc)

running_normal : running.mode ≡ normal
unfolding handle_event Service.new Gate.new Bus.new create_event
running_normal = refl

service-Accounts : Accounts recovering service
unfolding Service.new
service-Accounts = refl
