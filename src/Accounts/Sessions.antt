-- ===== src/Accounts/Sessions.antt =====
-- backend/services/account_session_service.py: `AccountSessionService`. Listing, statistics and the
-- form of a response are left out.
use sphere_platform.Base.{
  ℕ, String, Bool, true, false, ◌&&◌, Option, none, some, List, [], ◌∷◌, ◌==◌, if◌then◌else◌,
  keep_if,
}
use sphere_platform.Base.Dict.{get, put}
use sphere_platform.Tasks.Service.{Reply, ok, http_error, raised}
use sphere_platform.Accounts.Account.{GameAccount, AccountSession, Store}

pub record StartRequest : Type 0 where
  pub id : String
  pub account_id : String
  pub device_id : String
  pub script_id : Option String
  pub task_id : Option String
  pub pipeline_run_id : Option String

pub record EndRequest : Type 0 where
  pub end_reason : String
  pub error_message : Option String
  pub nodes_executed : ℕ
  pub errors_count : ℕ
  pub level_after : Option ℕ
  pub balance_after : Option ℕ

-- `account.level if account else None`, and so on.
abbrev pub level_of : Option GameAccount → Option ℕ
level_of none = none
level_of (some a) = a.level

abbrev pub balance_of : Option GameAccount → Option ℕ
balance_of none = none
balance_of (some a) = a.balance_rub

abbrev pub opened : ℕ → String → Option GameAccount → StartRequest → AccountSession
opened now org account r = record {
  org_id = org;
  account_id = r.account_id;
  device_id = r.device_id;
  started_at = now;
  ended_at = none;
  end_reason = none;
  error_message = none;
  script_id = r.script_id;
  task_id = r.task_id;
  pipeline_run_id = r.pipeline_run_id;
  nodes_executed = 0;
  errors_count = 0;
  level_before = level_of account;
  level_after = none;
  balance_before = balance_of account;
  balance_after = none;
}

abbrev pub save_session : Store → String → AccountSession → Store
save_session st id s = record st { sessions = put st.sessions id s }

unfoldable pub start_session : ℕ → Store → String → StartRequest → Store
start_session now st org r = save_session st r.id (opened now org (get st.accounts r.account_id) r)

abbrev pub is_open : AccountSession → Bool
is_open s = elim s.ended_at [ none ↦ true | some t ↦ false ]

abbrev pub ended : ℕ → EndRequest → AccountSession → AccountSession
ended now r s = record s {
  ended_at = some now;
  end_reason = some r.end_reason;
  error_message = r.error_message;
  nodes_executed = r.nodes_executed;
  errors_count = r.errors_count;
  level_after = r.level_after;
  balance_after = r.balance_after;
}

abbrev pub end_found :
    ℕ → Store → String → String → EndRequest → Option AccountSession → Reply Store
end_found now st id org r none = http_error 404
end_found now st id org r (some s) =
    if (s.org_id == org) && is_open s
    then ok (save_session st id (ended now r s))
    else http_error 404

unfoldable pub end_session : ℕ → Store → String → String → EndRequest → Reply Store
end_session now st id org r = end_found now st id org r (get st.sessions id)

-- `session.level_after = account.level`, where the account is there.
abbrev pub note_account : Option GameAccount → AccountSession → AccountSession
note_account none s = s
note_account (some a) s = record s { level_after = a.level; balance_after = a.balance_rub }

abbrev pub end_internal_found :
    ℕ → Store → String → String → Option String → ℕ → ℕ → Option AccountSession → Store
end_internal_found now st id reason error nodes errors none = st
end_internal_found now st id reason error nodes errors (some s) =
    if is_open s
    then save_session st id (
        note_account (get st.accounts s.account_id) (record s {
          ended_at = some now;
          end_reason = some reason;
          error_message = error;
          nodes_executed = nodes;
          errors_count = errors;
        }))
    else st

unfoldable pub end_session_internal : ℕ → Store → String → String → Option String → ℕ → ℕ → Store
end_session_internal now st id reason error nodes errors =
    end_internal_found now st id reason error nodes errors (get st.sessions id)

-- `scalar_one_or_none()`: two rows are an error.
abbrev pub one_or_none {ℓ} : {A : Type ℓ} → List A → Reply (Option A)
one_or_none [] = ok none
one_or_none (x ∷ []) = ok (some x)
one_or_none (x ∷ y ∷ xs) = raised

unfoldable pub is_active : String → String → String × AccountSession → Bool
is_active account org row = (row.1.account_id == account) && (row.1.org_id == org) && is_open row.1

unfoldable pub get_active_session :
    Store → String → String → Reply (Option (String × AccountSession))
unfolding is_active
get_active_session st account org = one_or_none (keep_if (is_active account org) st.sessions)
