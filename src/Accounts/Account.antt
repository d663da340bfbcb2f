-- ===== src/Accounts/Account.antt =====
-- backend/models/game_account.py and account_session.py, with the tables that the services share.
-- The gender, the VIP status, the data of the registration and `meta` are left out; amounts are whole.
use sphere_platform.Base.{ℕ, String, Bool, true, false, Option, none, some, ◌==◌, if◌then◌else◌}
use sphere_platform.Base.Dict.{Dict, get, put}

pub data AccountStatus : Type 0 where
  free in_use cooldown pending_registration banned captcha phone_verify disabled archived :
      AccountStatus

-- `status.value`
unfoldable pub value : AccountStatus → String
value free = "free"
value in_use = "in_use"
value cooldown = "cooldown"
value pending_registration = "pending_registration"
value banned = "banned"
value captcha = "captcha"
value phone_verify = "phone_verify"
value disabled = "disabled"
value archived = "archived"

abbrev pub is_free : AccountStatus → Bool
is_free free = true
is_free _ = false

abbrev pub is_in_use : AccountStatus → Bool
is_in_use in_use = true
is_in_use _ = false

pub data StatusReason : Type 0 where
  given : String → StatusReason
  assigned_to : String → StatusReason
  cooldown_for : ℕ → StatusReason
  rotated_from : String → StatusReason
  assigned_by_pipeline : String → StatusReason
  released_for : String → StatusReason

pub record GameAccount : Type 0 where
  pub org_id : String
  pub game : String
  pub login : String
  pub password_encrypted : String
  pub status : AccountStatus
  pub status_reason : Option StatusReason
  pub status_changed_at : Option ℕ
  pub device_id : Option String
  pub assigned_at : Option ℕ
  pub server_name : Option String
  pub nickname : Option String
  pub level : Option ℕ
  pub target_level : Option ℕ
  pub experience : Option ℕ
  pub balance_rub : Option ℕ
  pub balance_bc : Option ℕ
  pub last_balance_update : Option ℕ
  pub total_bans : ℕ
  pub last_ban_at : Option ℕ
  pub ban_reason : Option StatusReason
  pub total_sessions : ℕ
  pub last_session_end : Option ℕ
  pub cooldown_until : Option ℕ

pub record AccountSession : Type 0 where
  pub org_id : String
  pub account_id : String
  pub device_id : String
  pub started_at : ℕ
  pub ended_at : Option ℕ
  pub end_reason : Option String
  pub error_message : Option String
  pub script_id : Option String
  pub task_id : Option String
  pub pipeline_run_id : Option String
  pub nodes_executed : ℕ
  pub errors_count : ℕ
  pub level_before : Option ℕ
  pub level_after : Option ℕ
  pub balance_before : Option ℕ
  pub balance_after : Option ℕ

pub record Device : Type 0 where
  pub org_id : String
  pub name : String

-- The tables, in the order in which rows were created.
pub record Store : Type 0 where
  pub accounts : Dict GameAccount
  pub sessions : Dict AccountSession
  pub devices : Dict Device

abbrev pub save_account : Store → String → GameAccount → Store
save_account st id a = record st { accounts = put st.accounts id a }

abbrev pub in_org : String → Option GameAccount → Option GameAccount
in_org org none = none
in_org org (some a) = if a.org_id == org then some a else none

-- `_get_account`
unfoldable pub get_account : Store → String → String → Option GameAccount
get_account st id org = in_org org (get st.accounts id)
