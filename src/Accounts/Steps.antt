-- ===== src/Accounts/Steps.antt =====
-- backend/services/orchestrator/step_handlers.py: `handle_assign_account` and
-- `handle_release_account`. The result is the context updates of a success, or `none` for a failure;
-- a text that is no UUID is the id of no row. The params are those that the step's dict holds.
use sphere_platform.Base.{
  ℕ, ◌+◌, ◌*◌, suc, String, Option, none, some, List, [], ◌∷◌, ltb, if◌then◌else◌, has, truthy,
}
use sphere_platform.Base.Dict.{Dict, get}
use sphere_platform.Base.Dict.Find.{find_row}
use sphere_platform.Pipeline.Value.{Value, null, str}
use sphere_platform.Accounts.Account.{
  free, cooldown, is_free, assigned_by_pipeline, released_for, GameAccount, AccountSession, Store,
  save_account, get_account,
}
use sphere_platform.Accounts.Service.{attach}
use sphere_platform.Accounts.Sessions.{StartRequest, opened, is_open, save_session}
use sphere_platform.Accounts.Reactor.{can_rotate}

-- What the handlers read of `run`.
pub record StepRun : Type 0 where
  pub id : String
  pub org_id : String
  pub device_id : String
  pub pipeline_id : String
  pub assigned_account_id : Option String
  pub account_session_id : Option String

abbrev pub pick_free : Option GameAccount → String → Option (String × GameAccount)
pick_free none id = none
pick_free (some a) id = if is_free a.status then some (id, a) else none

-- The account that a step asks for, or the oldest free one of the game.
unfoldable pub pick_account :
    Store → String → String → Option String → Option (String × GameAccount)
pick_account st org game specific = elim (truthy specific) [
  | some id ↦ pick_free (get_account st id org) id
  | none ↦ find_row (can_rotate org game) st.accounts
]

abbrev pub step_session : String → StepRun → String → StartRequest
step_session new run account = record {
  id = new;
  account_id = account;
  device_id = run.device_id;
  script_id = none;
  task_id = none;
  pipeline_run_id = some run.id;
}

abbrev pub assign_picked :
    ℕ → String → Store → StepRun → Option (String × GameAccount) → Option (Dict Value) × Store
assign_picked now new st run none = (none, st)
assign_picked now new st run (some (id, a)) = (
  some (
      ("assigned_account_id", str id)
      ∷ ("assigned_account_login", str a.login)
      ∷ ("assigned_account_game", str a.game)
      ∷ ("account_session_id", str new)
      ∷ []),
  save_session
      (save_account st id (attach now run.device_id (assigned_by_pipeline run.pipeline_id) a)) new
      (opened now run.org_id (some a) (step_session new run id)),
)

unfoldable pub handle_assign_account :
    ℕ → String → Store → StepRun → Option String → Option String → Option (Dict Value) × Store
handle_assign_account now new st run game specific = elim (truthy game) [
  | none ↦ (none, st)
  | some g ↦ assign_picked now new st run (pick_account st run.org_id g specific)
]

-- The values of `SessionEndReason`.
abbrev pub end_reasons : List String
end_reasons =
    "completed" ∷ "banned" ∷ "captcha" ∷ "error" ∷ "manual" ∷ "rotation" ∷ "timeout"
    ∷ "device_offline" ∷ []

abbrev pub cool_down : ℕ → ℕ → GameAccount → GameAccount
cool_down now minutes a =
    if ltb 0 minutes
    then record a { status = cooldown; cooldown_until = some (now + minutes * 60) }
    else record a { status = free }

abbrev pub step_released : ℕ → ℕ → String → GameAccount → GameAccount
step_released now minutes reason a = record (cool_down now minutes a) {
  device_id = none;
  assigned_at = none;
  status_changed_at = some now;
  status_reason = some (released_for reason);
  total_sessions = suc a.total_sessions;
  last_session_end = some now;
}

-- An unknown reason raises ValueError after `ended_at` is set, and the handler goes on.
abbrev pub step_closed : ℕ → String → GameAccount → AccountSession → AccountSession
step_closed now reason a s =
    if has end_reasons reason
    then record s {
      ended_at = some now;
      end_reason = some reason;
      level_after = a.level;
      balance_after = a.balance_rub;
    }
    else record s { ended_at = some now }

abbrev pub close_step : ℕ → String → GameAccount → Store → String → Option AccountSession → Store
close_step now reason a st id none = st
close_step now reason a st id (some s) =
    if is_open s then save_session st id (step_closed now reason a s) else st

abbrev pub close_named : ℕ → String → GameAccount → Store → Option String → Store
close_named now reason a st none = st
close_named now reason a st (some id) = close_step now reason a st id (get st.sessions id)

abbrev pub step_release_found :
    ℕ → ℕ → String → Store → StepRun → String → Option GameAccount → Option (Dict Value) × Store
step_release_found now minutes reason st run id none = (none, st)
step_release_found now minutes reason st run id (some a) = (
  some (("assigned_account_id", null) ∷ ("account_session_id", null) ∷ []),
  close_named now reason a (save_account st id (step_released now minutes reason a))
      (truthy run.account_session_id),
)

unfoldable pub handle_release_account :
    ℕ → Store → StepRun → ℕ → String → Option (Dict Value) × Store
handle_release_account now st run minutes reason = elim (truthy run.assigned_account_id) [
  | none ↦ (none, st)
  | some id ↦ step_release_found now minutes reason st run id (get_account st id run.org_id)
]
