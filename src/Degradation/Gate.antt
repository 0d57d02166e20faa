-- ===== src/Degradation/Gate.antt =====
-- The gate of all trading operations: backend/src/degradation/trading_gate.py.
-- Its lock makes each method atomic, so a method is one function of the record.
pub mod Permissions
use aq_trading.Prelude.{Bool, true, false, Option, none, some, if◌then◌else◌}
use aq_trading.Prelude.Text.{Text, codes}
use aq_trading.Prelude.Result.{Result, ok, raised}
use aq_trading.Degradation.Types.{
  SystemMode, normal, degraded, safe_mode, safe_mode_disconnected, halt, recovering, RecoveryStage,
  connect_broker, catchup_marketdata, verify_risk, ready, ActionType, open_position, send, amend,
  cancel, reduce_only, query, ValueError, stage_required, is_recovering_mode,
}

pub record PermissionResult : Type 0 where
  pub allowed : Bool
  pub warning : Option Text
  pub restricted : Bool
  pub local_only : Bool

pub record TradingGate : Type 0 where
  pub mode : SystemMode
  pub stage : Option RecoveryStage

abbrev pub permission : Bool → Bool → Option Text → Bool → PermissionResult
permission allowed restricted warning local_only = record {
  allowed = allowed;
  warning = warning;
  restricted = restricted;
  local_only = local_only;
}

abbrev pub granted : PermissionResult
granted = permission true false none false

abbrev pub denied : PermissionResult
denied = permission false false none false

abbrev pub best_effort : Text
best_effort = codes "Cancel is best-effort; broker connection may be unstable"

-- `_MODE_PERMISSIONS`; no entry for `recovering`, whose lookup denies.
unfoldable pub mode_permissions : SystemMode → ActionType → PermissionResult
mode_permissions normal _ = granted
mode_permissions degraded open_position = permission true true none false
mode_permissions degraded _ = granted
mode_permissions safe_mode open_position = denied
mode_permissions safe_mode send = denied
mode_permissions safe_mode amend = denied
mode_permissions safe_mode cancel = permission true false (some best_effort) false
mode_permissions safe_mode reduce_only = granted
mode_permissions safe_mode query = granted
mode_permissions safe_mode_disconnected query = permission true false none true
mode_permissions safe_mode_disconnected _ = denied
mode_permissions halt query = granted
mode_permissions halt _ = denied
mode_permissions recovering _ = denied

-- `action in _RECOVERY_STAGE_PERMISSIONS[stage]`
unfoldable pub stage_allows : RecoveryStage → ActionType → Bool
stage_allows _ query = true
stage_allows verify_risk cancel = true
stage_allows ready cancel = true
stage_allows ready reduce_only = true
stage_allows _ _ = false

-- `__init__`
unfoldable pub new : TradingGate
new = record { mode = recovering; stage = some connect_broker }

unfoldable pub update_mode :
    SystemMode → Option RecoveryStage → TradingGate → TradingGate × Result ValueError (Unit {0})
unfolding is_recovering_mode
update_mode recovering none g = (g, raised stage_required)
update_mode mode stage g =
    (record { mode = mode; stage = if is_recovering_mode mode then stage else none }, ok tt)

-- `check_permission`, by the mode and the stage that were read under the lock
unfoldable pub permission_at : SystemMode → Option RecoveryStage → ActionType → PermissionResult
unfolding mode_permissions stage_allows
permission_at recovering none action = denied
permission_at recovering (some stage) action =
    permission (stage_allows stage action) false none false
permission_at mode stage action = mode_permissions mode action

unfoldable pub check_permission : TradingGate → ActionType → PermissionResult
unfolding permission_at
check_permission g action = permission_at g.mode g.stage action

unfoldable pub allows : TradingGate → ActionType → Bool
unfolding check_permission
allows g action = (check_permission g action).allowed

unfoldable pub allows_with_warning : TradingGate → ActionType → Bool × Option Text
unfolding check_permission
allows_with_warning g action =
    let result = check_permission g action in (result.allowed, result.warning)
