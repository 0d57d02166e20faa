-- ===== src/Degradation/Service/Escalation.antt =====
-- Handling events, seen as the service's mode alone.
use mathlib.Core.Logic.{∥∥₁_elim}
use mathlib.Core.List.{Perm, Permᴰ}
use aq_trading.Prelude.{
  ℕ, ◌≤◌, ◌≡◌, ◌⊎◌, refl, ◌∙◌, true, false, none, List, [], ◌∷◌, arith, leb, if◌then◌else◌, All,
  sym, ap, subst,
}
use aq_trading.Degradation.Types.{
  SystemMode, normal, recovering, degraded, safe_mode, safe_mode_disconnected, halt, ReasonCode,
  mode_priority, Clock, SystemEvent,
}
use aq_trading.Degradation.Service.{SystemStateService, decision_matrix, is_release, handle_event}

-- The events in the order in which they are handled, each with its clock.
unfoldable pub run : List (Clock × SystemEvent) → SystemStateService → SystemStateService
run [] s = s
run ((t, e) ∷ es) s = run es (handle_event t e s).0

-- The same on modes: a release takes the mode that it names, and any other target raises the mode to it
-- where the target is at least as severe.
unfoldable pub raise_to : SystemMode → SystemMode → SystemMode
unfolding mode_priority is_release
raise_to m target =
    if is_release target
    then target
    else if leb (mode_priority m) (mode_priority target)
    then target
    else m

unfoldable pub contract_run : SystemMode → List (Clock × SystemEvent) → SystemMode
unfolding raise_to
contract_run m [] = m
contract_run m ((t, e) ∷ es) = contract_run (raise_to m (decision_matrix e.reason_code)) es

handle_event-mode :
    (t : Clock) (e : SystemEvent) (s : SystemStateService)
    → s.force_override ≡ none
    → let s' = (handle_event t e s).0 in
      (s'.mode ≡ raise_to s.mode (decision_matrix e.reason_code)) × (s'.force_override ≡ none)
unfolding handle_event raise_to
handle_event-mode t e s free = ground arith

-- While no override is in force, the mode that the service ends in depends on the mode at the start and on the
-- events alone.
run-refines :
    (es : List (Clock × SystemEvent)) (s : SystemStateService)
    → s.force_override ≡ none
    → (run es s).mode ≡ contract_run s.mode es
unfolding run contract_run
run-refines [] s free = refl
run-refines ((t, e) ∷ es) s free =
    let step = handle_event-mode t e s free in
    run-refines es (handle_event t e s).0 step.1 ∙ rw step.0

-- The contract. Which mode a reason asks for:
abbrev pub wanted_mode : ReasonCode → SystemMode
wanted_mode ReasonCode.all_healthy = normal
wanted_mode ReasonCode.broker_reconnected = recovering
wanted_mode ReasonCode.cold_start = recovering
wanted_mode ReasonCode.md_quality_degraded = degraded
wanted_mode ReasonCode.db_write_fail = degraded
wanted_mode ReasonCode.alerts_channel_down = degraded
wanted_mode ReasonCode.md_stale = safe_mode
wanted_mode ReasonCode.risk_timeout = safe_mode
wanted_mode ReasonCode.db_buffer_overflow = safe_mode
wanted_mode ReasonCode.broker_disconnect = safe_mode_disconnected
wanted_mode ReasonCode.broker_report_mismatch = halt
wanted_mode ReasonCode.risk_breach_hard = halt
wanted_mode ReasonCode.position_truth_unknown = halt
wanted_mode ReasonCode.recovery_failed = halt

-- How severe a mode is.
abbrev pub severity : SystemMode → ℕ
severity normal = 0
severity recovering = 1
severity degraded = 2
severity safe_mode = 3
severity safe_mode_disconnected = 4
severity halt = 5

-- The more severe of two modes.
abbrev pub worse : SystemMode → SystemMode → SystemMode
worse a b = if leb (severity b) (severity a) then a else b

-- The mode after a mode is asked for: back to `normal` or `recovering` always, else never to a less severe one.
abbrev pub answer : SystemMode → SystemMode → SystemMode
answer m normal = normal
answer m recovering = recovering
answer m degraded = worse m degraded
answer m safe_mode = worse m safe_mode
answer m safe_mode_disconnected = worse m safe_mode_disconnected
answer m halt = worse m halt

abbrev pub required_mode : SystemMode → List (Clock × SystemEvent) → SystemMode
required_mode m [] = m
required_mode m ((t, e) ∷ es) = required_mode (answer m (wanted_mode e.reason_code)) es

decision_matrix_lem : (r : ReasonCode) → decision_matrix r ≡ wanted_mode r
unfolding decision_matrix
decision_matrix_lem r = ground arith

raise_to_lem : (m target : SystemMode) → raise_to m target ≡ answer m target
unfolding raise_to mode_priority is_release
raise_to_lem m target = ground arith

contract_run_lem :
    (m : SystemMode) (es : List (Clock × SystemEvent)) → contract_run m es ≡ required_mode m es
unfolding contract_run
contract_run_lem m [] = refl
contract_run_lem m ((t, e) ∷ es) =
    contract_run_lem (raise_to m (decision_matrix e.reason_code)) es
    ∙ ap (λ k. required_mode k es)
        (raise_to_lem m (decision_matrix e.reason_code)
          ∙ ap (answer m) (decision_matrix_lem e.reason_code))

-- While no override is in force, handling any sequence of events, at any clocks, ends in the mode of the contract. It
-- takes one mode at a time: a reason that asks for `normal` or `recovering` leads there; any other leads to the more
-- severe of the present mode and the mode that the table names for the reason. Only calls of handle_event are made.
pub run-required :
    (es : List (Clock × SystemEvent)) (s : SystemStateService)
    → s.force_override ≡ none
    → (run es s).mode ≡ required_mode s.mode es
run-required es s free = run-refines es s free ∙ contract_run_lem s.mode es

-- The event asks for a mode other than `normal` and `recovering`.
abbrev pub IsFailure : Clock × SystemEvent → Type 0
IsFailure (t, e) = is_release (decision_matrix e.reason_code) ≡ false

raise_to-le :
    (m target : SystemMode)
    → mode_priority m ≤ mode_priority (raise_to m target) ⊎ (is_release target ≡ true)
unfolding raise_to
raise_to-le m target = ground arith

raise_to-target_le :
    (m target : SystemMode) → mode_priority target ≤ mode_priority (raise_to m target)
unfolding raise_to
raise_to-target_le m target = ground arith

raise_to_comm :
    (m a b : SystemMode)
    → is_release a ≡ false
    → is_release b ≡ false
    → raise_to (raise_to m a) b ≡ raise_to (raise_to m b) a
unfolding raise_to
raise_to_comm m a b ha hb = ground arith

contract_run-le :
    (m : SystemMode) (es : List (Clock × SystemEvent))
    → All IsFailure es
    → mode_priority m ≤ mode_priority (contract_run m es)
unfolding contract_run
contract_run-le m [] h = omega arith
contract_run-le m ((t, e) ∷ es) h =
    let target = decision_matrix e.reason_code in
    grind (arith, raise_to-le m target, contract_run-le (raise_to m target) es h.1)

contract_run-bounds :
    (m : SystemMode) (es : List (Clock × SystemEvent))
    → All IsFailure es
    → All
        (λ x. mode_priority (decision_matrix x.1.reason_code) ≤ mode_priority (contract_run m es))
        es
unfolding contract_run
contract_run-bounds m [] h = tt
contract_run-bounds m ((t, e) ∷ es) h =
    let target = decision_matrix e.reason_code in
    let m' = raise_to m target in
    (
      omega (arith, raise_to-target_le m target, contract_run-le m' es h.1),
      contract_run-bounds m' es h.1,
    )

-- Without an override and without a release among the events, the mode never gets less severe, and in
-- the end it is at least as severe as what each of the events asks for.
pub run-escalates :
    (es : List (Clock × SystemEvent)) (s : SystemStateService)
    → s.force_override ≡ none
    → All IsFailure es
    → (mode_priority s.mode ≤ mode_priority (run es s).mode)
      × All
          (λ x. mode_priority (decision_matrix x.1.reason_code) ≤ mode_priority (run es s).mode)
          es
run-escalates es s free h =
    rw (run-refines es s free) (contract_run-le s.mode es h, contract_run-bounds s.mode es h)

All-permᴰ : {es fs : List (Clock × SystemEvent)} → Permᴰ es fs → All IsFailure es → All IsFailure fs
All-permᴰ Permᴰ.nil h = tt
All-permᴰ (Permᴰ.cons e p) h = (subst IsFailure e h.0, All-permᴰ p h.1)
All-permᴰ (Permᴰ.swap e f) h = (subst IsFailure f h.1.0, (subst IsFailure e h.0, h.1.1))
All-permᴰ (Permᴰ.trans p q) h = All-permᴰ q (All-permᴰ p h)

contract_run-permᴰ :
    (m : SystemMode) {es fs : List (Clock × SystemEvent)}
    → Permᴰ es fs
    → All IsFailure es
    → contract_run m es ≡ contract_run m fs
unfolding contract_run
contract_run-permᴰ m Permᴰ.nil h = refl
contract_run-permᴰ m (Permᴰ.cons {a = x} {b = y} {l₁ = es} {l₂ = fs} e p) h =
    contract_run-permᴰ (raise_to m (decision_matrix x.1.reason_code)) p h.1
    ∙ ap
        (λ (z : Clock × SystemEvent).
          contract_run (raise_to m (decision_matrix z.1.reason_code)) fs)
        e
contract_run-permᴰ m (Permᴰ.swap {a = a} {b = b} {a' = a'} {b' = b'} {l = l} e f) h =
    ap (λ z. contract_run z l)
      (raise_to_comm m (decision_matrix a.1.reason_code) (decision_matrix b.1.reason_code) h.0 h.1.0
        ∙ rw (e, f))
contract_run-permᴰ m (Permᴰ.trans p q) h =
    contract_run-permᴰ m p h ∙ contract_run-permᴰ m q (All-permᴰ p h)

SystemMode-set : IsSet SystemMode
SystemMode-set = hlevel

-- Without an override and without a release among the events, the order in which the events arrive does
-- not change the mode in which the service ends.
pub run-perm :
    (s : SystemStateService) {es fs : List (Clock × SystemEvent)}
    → s.force_override ≡ none
    → All IsFailure es
    → Perm es fs
    → (run es s).mode ≡ (run fs s).mode
run-perm s {es} {fs} free h p =
    run-refines es s free
    ∙ ∥∥₁_elim p (SystemMode-set _ _) (λ q. contract_run-permᴰ s.mode q h)
    ∙ sym (run-refines fs s free)
