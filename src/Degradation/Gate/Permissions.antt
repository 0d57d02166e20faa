-- ===== src/Degradation/Gate/Permissions.antt =====
-- Which actions the gate lets through.
use aq_trading.Prelude.{
  ◌≤◌, ◌≡◌, ◌≢◌, ◌↔◌, ◌⊎◌, refl, inr, true, Option, none, some, arith, is_some,
}
use aq_trading.Prelude.Result.{raised}
use aq_trading.Degradation.Types.{
  SystemMode, normal, degraded, recovering, RecoveryStage, ActionType, open_position, query,
  mode_priority, ValueError, is_recovering_mode,
}
use aq_trading.Degradation.Gate.{TradingGate, update_mode, allows}

-- A stage is held exactly in the mode `recovering`.
abbrev pub IsStaged : TradingGate → Type 0
IsStaged g = is_some g.stage ≡ is_recovering_mode g.mode

-- Whatever mode and stage are asked for, the gate keeps a stage exactly in the mode `recovering`; the
-- call raises exactly when `recovering` is asked for without a stage, and then leaves the gate as it
-- was; otherwise the gate takes the mode.
pub update_mode-IsStaged :
    (mode : SystemMode) (stage : Option RecoveryStage) (g : TradingGate)
    → IsStaged g
    → let (g', r) = update_mode mode stage g in
      IsStaged g'
      × (r ≡ raised ValueError.stage_required → g' ≡ g)
      × ((r ≡ raised ValueError.stage_required) ↔ ((mode ≡ recovering) × (stage ≡ none)))
      × ((g'.mode ≡ mode) ⊎ (r ≡ raised ValueError.stage_required))
unfolding update_mode
update_mode-IsStaged recovering none g h = (h, λ _. refl, (λ _. (refl, refl), λ _. refl), inr refl)
update_mode-IsStaged recovering (some s) g h = ground arith
update_mode-IsStaged normal stage g h = ground arith
update_mode-IsStaged _ stage g h = ground arith

-- Outside `recovering`, a mode of no higher priority allows whatever a more severe one allows,
-- whatever stages the two gates hold.
pub allows_mono :
    (g h : TradingGate) (a : ActionType)
    → g.mode ≢ recovering
    → h.mode ≢ recovering
    → mode_priority g.mode ≤ mode_priority h.mode
    → allows h a ≡ true
    → allows g a ≡ true
unfolding allows mode_priority
allows_mono g h a ng nh le e = ground arith

-- A gate lets a position be opened exactly in the modes `normal` and `degraded`.
pub allows-open_position :
    (g : TradingGate) → (allows g open_position ≡ true) ↔ ((g.mode ≡ normal) ⊎ (g.mode ≡ degraded))
unfolding allows
allows-open_position g = ground arith

-- Queries are allowed in every mode, as long as the gate is staged.
pub allows-query : (g : TradingGate) → IsStaged g → allows g query ≡ true
unfolding allows is_recovering_mode
allows-query g h = ground arith
