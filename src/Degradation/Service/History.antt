-- ===== src/Degradation/Service/History.antt =====
-- The transition history accounts for the mode.
use aq_trading.Prelude.{◌≡◌, refl, List, [], ◌∷◌, ◌++◌, arith, ℕ, Bool-cases, inl, inr}
use aq_trading.Degradation.Types.{
  SystemMode, Clock, SystemEvent, ModeTransition, ReasonCode, ComponentSource,
}
use aq_trading.Degradation.Service.{
  SystemStateService, handle_event, transition_to, event_transition, is_force_override,
  decision_matrix, can_transition,
}
use aq_trading.Degradation.Service.Escalation.{run}

-- The transitions lead from one mode to another, each beginning where the one before it ended.
abbrev pub IsLinked : SystemMode → List ModeTransition → SystemMode → Type 0
IsLinked from [] to = from ≡ to
IsLinked from (x ∷ xs) to = (x.from_mode ≡ from) × IsLinked (x.to_mode) xs to

IsLinked-snoc :
    (from m : SystemMode) (xs : List ModeTransition) (x : ModeTransition)
    → IsLinked from xs m
    → x.from_mode ≡ m
    → IsLinked from (xs ++ x ∷ []) x.to_mode
IsLinked-snoc from m [] x h e = (cc, refl)
IsLinked-snoc from m (y ∷ ys) x h e = (h.0, IsLinked-snoc y.to_mode m ys x h.1 e)

transition_to-entry :
    (t : Clock) (target : SystemMode) (reason : ReasonCode) (source : ComponentSource)
    (s : SystemStateService)
    → let s' = (transition_to t target reason source s).0 in
      (s'.mode ≡ target)
      × (s'.transition_history
          ≡ s.transition_history ++ event_transition t s.mode target reason source ∷ [])
unfolding transition_to
transition_to-entry t target reason source s = ground arith

is_force_override_keeps :
    (now : ℕ) (s : SystemStateService)
    → let s' = (is_force_override now s).0 in
      (s'.mode ≡ s.mode) × (s'.transition_history ≡ s.transition_history)
unfolding is_force_override
is_force_override_keeps now s = ground arith

module _ (from : SystemMode) where
  -- The history of the service leads from `from` to its mode.
  abbrev pub Accounts : SystemStateService → Type 0
  Accounts s = IsLinked from s.transition_history s.mode

  Accounts-subst :
      (s s' : SystemStateService)
      → (s'.mode ≡ s.mode) × (s'.transition_history ≡ s.transition_history)
      → Accounts s
      → Accounts s'
  Accounts-subst s s' (e, f) h = rw (e, f) h

  transition_to-Accounts :
      (t : Clock) (target : SystemMode) (reason : ReasonCode) (source : ComponentSource)
      (s : SystemStateService)
      → Accounts s
      → Accounts (transition_to t target reason source s).0
  transition_to-Accounts t target reason source s h =
      let e = transition_to-entry t target reason source s in
      rw (e.0, e.1)
        (IsLinked-snoc from s.mode s.transition_history
          (event_transition t s.mode target reason source) h refl)

  -- Whatever event is handled, the history goes on leading from one mode to the next and ends in the
  -- mode of the service.
  pub handle_event-Accounts :
      (t : Clock) (e : SystemEvent) (s : SystemStateService)
      → Accounts s
      → Accounts (handle_event t e s).0
  unfolding handle_event
  handle_event-Accounts t e s h =
      let s' = (is_force_override t.mono s).0 in
      let target = decision_matrix e.reason_code in
      let h' = Accounts-subst s s' (is_force_override_keeps t.mono s) h in
      elim (Bool-cases (is_force_override t.mono s).1) [
        | inl held ↦ rw held h'
        | inr free ↦ elim (Bool-cases (can_transition s'.mode target)) [
          | inl moves ↦
              rw (free, moves) (transition_to-Accounts t target e.reason_code e.source s' h')
          | inr stays ↦ rw (free, stays) h'
        ]
      ]

-- If the history of a service leads from a mode to its mode, each transition beginning where the one
-- before it ended, then so it does after any sequence of events under any clocks.
pub run-Accounts :
    (from : SystemMode) (es : List (Clock × SystemEvent)) (s : SystemStateService)
    → Accounts from s
    → Accounts from (run es s)
unfolding run
run-Accounts from [] s h = h
run-Accounts from ((t, e) ∷ es) s h =
    run-Accounts from es (handle_event t e s).0 (handle_event-Accounts from t e s h)
