-- ===== src/Accounts/Reactor.antt =====
-- backend/services/event_reactor.py: `EventReactor`. The row of the event and the triggers are
-- left out here; a row that another transaction has locked is not met.
use sphere_platform.Base.{
  ℕ, suc, String, Bool, true, false, ◌&&◌, Option, none, some, [], ◌∷◌, ◌==◌, if◌then◌else◌,
}
use sphere_platform.Base.Dict.{Dict, get, remove}
use sphere_platform.Base.Dict.Find.{find_row}
use sphere_platform.Tasks.Service.{Reply, ok, http_error, raised}
use sphere_platform.Accounts.Account.{
  AccountStatus, banned, captcha, phone_verify, disabled, is_free, given, rotated_from, GameAccount,
  AccountSession, Store, save_account, get_account,
}
use sphere_platform.Accounts.Service.{attach}
use sphere_platform.Accounts.Sessions.{
  StartRequest, opened, note_account, save_session, get_active_session,
}

pub record Event : Type 0 where
  pub org_id : String
  pub device_id : String
  pub event_type : String
  pub message : Option String
  pub account_id : Option String

abbrev pub account_status_reactions : Dict AccountStatus
account_status_reactions =
    ("account.banned", banned)
    ∷ ("account.captcha", captcha)
    ∷ ("account.phone_verify", phone_verify)
    ∷ ("account.error", disabled)
    ∷ []

abbrev pub session_end_reasons : Dict String
session_end_reasons =
    ("account.banned", "banned")
    ∷ ("account.captcha", "captcha")
    ∷ ("account.phone_verify", "error")
    ∷ ("account.error", "error")
    ∷ ("game.crashed", "error")
    ∷ ("device.error", "device_offline")
    ∷ ("device.offline", "device_offline")
    ∷ []

-- `message or event_type`
abbrev pub reason_text : Event → String
reason_text e = elim e.message [
  | none ↦ e.event_type
  | some m ↦ if m == "" then e.event_type else m
]

abbrev pub is_lost : AccountStatus → Bool
is_lost banned = true
is_lost disabled = true
is_lost _ = false

abbrev pub detach : AccountStatus → GameAccount → GameAccount
detach s a = if is_lost s then record a { device_id = none; assigned_at = none } else a

abbrev pub count_ban : ℕ → Event → GameAccount → GameAccount
count_ban now e a =
    if e.event_type == "account.banned"
    then record a {
      total_bans = suc a.total_bans;
      last_ban_at = some now;
      ban_reason = some (given (reason_text e));
    }
    else a

abbrev pub reacted : ℕ → Event → AccountStatus → GameAccount → GameAccount
reacted now e s a = count_ban now e (
    detach s (record a {
      status = s;
      status_reason = some (given (reason_text e));
      status_changed_at = some now;
    }))

abbrev pub react_found : ℕ → Store → Event → String → AccountStatus → Option GameAccount → Store
react_found now st e id s none = st
react_found now st e id s (some a) = save_account st id (reacted now e s a)

-- `_update_account_status`
unfoldable pub update_account_status : ℕ → Store → Event → String → AccountStatus → Store
update_account_status now st e id s = react_found now st e id s (get_account st id e.org_id)

abbrev pub count_session : ℕ → GameAccount → GameAccount
count_session now a = record a {
  total_sessions = suc a.total_sessions;
  last_session_end = some now;
}

abbrev pub closed : ℕ → String → Option String → AccountSession → AccountSession
closed now reason error s = record s {
  ended_at = some now;
  end_reason = some reason;
  error_message = error;
}

abbrev pub close_row :
    ℕ → Store → String → Event → String → AccountSession → Option GameAccount → Store
close_row now st reason e id s none = save_session st id (closed now reason e.message s)
close_row now st reason e id s (some a) =
    save_account (save_session st id (note_account (some a) (closed now reason e.message s)))
      s.account_id (count_session now a)

abbrev pub close_found :
    ℕ → Store → String → Event → Reply (Option (String × AccountSession)) → Reply Store
close_found now st reason e raised = raised
close_found now st reason e (http_error n) = http_error n
close_found now st reason e (ok none) = ok st
close_found now st reason e (ok (some (id, s))) =
    ok (close_row now st reason e id s (get st.accounts s.account_id))

-- `_end_active_session`
unfoldable pub end_active_session : ℕ → Store → Event → String → String → Reply Store
end_active_session now st e account reason =
    close_found now st reason e (get_active_session st account e.org_id)

-- The filter of the rotation.
unfoldable pub can_rotate : String → String → GameAccount → Bool
can_rotate org game a = (a.org_id == org) && (a.game == game) && is_free a.status

-- The id of the new session is an argument.
abbrev pub rotation_session : String → String → Event → StartRequest
rotation_session new account e = record {
  id = new;
  account_id = account;
  device_id = e.device_id;
  script_id = none;
  task_id = none;
  pipeline_run_id = none;
}

abbrev pub rotate_to :
    ℕ → String → Store → Event → GameAccount → Option (String × GameAccount) → Option String × Store
rotate_to now new st e old none = (none, st)
rotate_to now new st e old (some (id, a)) = (
  some id,
  save_session (save_account st id (attach now e.device_id (rotated_from old.login) a)) new
      (opened now e.org_id (some a) (rotation_session new id e)),
)

abbrev pub rotate_from :
    ℕ → String → Store → Event → String → Option GameAccount → Option String × Store
rotate_from now new st e id none = (none, st)
rotate_from now new st e id (some old) =
    rotate_to now new st e old (find_row (can_rotate e.org_id old.game) (remove st.accounts id))

-- `_try_rotate_account`: the oldest free account of the same game.
unfoldable pub try_rotate_account : ℕ → String → Store → Event → String → Option String × Store
try_rotate_account now new st e id = rotate_from now new st e id (get st.accounts id)

abbrev pub react_status : ℕ → Store → Event → String → Option AccountStatus → Store
react_status now st e id none = st
react_status now st e id (some s) = update_account_status now st e id s

abbrev pub react_session : ℕ → Store → Event → String → Option String → Reply Store
react_session now st e id none = ok st
react_session now st e id (some reason) = end_active_session now st e id reason

-- What is written into the event's data: nothing, or the outcome of the rotation.
pub data Rotation : Type 0 where
  not_tried no_free_accounts : Rotation
  success : String → Rotation

abbrev pub rotation_of : Option String × Store → Rotation × Store
rotation_of (none, st) = (no_free_accounts, st)
rotation_of (some id, st) = (success id, st)

abbrev pub react_ban : ℕ → String → Event → String → Reply Store → Reply (Rotation × Store)
react_ban now new e id raised = raised
react_ban now new e id (http_error n) = http_error n
react_ban now new e id (ok st) = ok (
    if e.event_type == "account.banned"
    then rotation_of (try_rotate_account now new st e id)
    else (not_tried, st))

abbrev pub react_account : ℕ → String → Store → Event → Option String → Reply (Rotation × Store)
react_account now new st e none = ok (not_tried, st)
react_account now new st e (some id) = react_ban now new e id (
    react_session now (react_status now st e id (get account_status_reactions e.event_type)) e id
      (get session_end_reasons e.event_type))

-- `process_event`, up to its triggers. `new` is the id of the session of a rotation.
unfoldable pub process_event : ℕ → String → Store → Event → Reply (Rotation × Store)
process_event now new st e = react_account now new st e e.account_id
