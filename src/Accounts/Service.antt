-- ===== src/Accounts/Service.antt =====
-- backend/services/game_account_service.py: `GameAccountService`. The response of a method is the
-- store that it leaves; listing and the form of a response are left out.
use sphere_platform.Base.{
  ℕ, ◌+◌, ◌*◌, suc, String, Bool, false, ◌&&◌, Option, none, some, List, [], ◌∷◌, ◌==◌, ltb, leb,
  if◌then◌else◌,
}
use sphere_platform.Base.Dict.{Dict, get, remove}
use sphere_platform.Base.Dict.Find.{find_row}
use sphere_platform.Tasks.Service.{Reply, ok, http_error}
use sphere_platform.Accounts.Account.{
  AccountStatus, free, in_use, cooldown, value, is_free, is_in_use, StatusReason, given,
  assigned_to, cooldown_for, GameAccount, Device, Store, save_account, get_account,
}

pub record CreateRequest : Type 0 where
  pub id : String
  pub game : String
  pub login : String
  pub password : String
  pub server_name : Option String
  pub nickname : Option String
  pub level : Option ℕ
  pub target_level : Option ℕ
  pub experience : Option ℕ
  pub balance_rub : Option ℕ
  pub balance_bc : Option ℕ

pub record UpdateRequest : Type 0 where
  pub login : Option String
  pub password : Option String
  pub status : Option AccountStatus
  pub status_reason : Option String
  pub server_name : Option String
  pub nickname : Option String
  pub level : Option ℕ
  pub target_level : Option ℕ
  pub experience : Option ℕ
  pub balance_rub : Option ℕ
  pub balance_bc : Option ℕ

-- The key of the unique index (org_id, game, login).
unfoldable pub has_login : String → String → String → GameAccount → Bool
has_login org game login a = (a.org_id == org) && (a.game == game) && (a.login == login)

abbrev pub if_some {ℓ κ} : {A : Type ℓ} {B : Type κ} → Option A → B → B → B
if_some none x y = y
if_some (some a) x y = x

abbrev pub or_keep {ℓ} : {A : Type ℓ} → Option A → Option A → Option A
or_keep none old = old
or_keep (some new) old = some new

abbrev pub reason_of : Option String → Option StatusReason
reason_of none = none
reason_of (some s) = some (given s)

abbrev pub new_account : ℕ → String → CreateRequest → GameAccount
new_account now org r = record {
  org_id = org;
  game = r.game;
  login = r.login;
  password_encrypted = r.password;
  status = free;
  status_reason = none;
  status_changed_at = some now;
  device_id = none;
  assigned_at = none;
  server_name = r.server_name;
  nickname = r.nickname;
  level = r.level;
  target_level = r.target_level;
  experience = r.experience;
  balance_rub = r.balance_rub;
  balance_bc = r.balance_bc;
  last_balance_update = if_some r.balance_rub (some now) none;
  total_bans = 0;
  last_ban_at = none;
  ban_reason = none;
  total_sessions = 0;
  last_session_end = none;
  cooldown_until = none;
}

unfoldable pub create_account : ℕ → Store → String → CreateRequest → Reply Store
create_account now st org r = elim (find_row (has_login org r.game r.login) st.accounts) [
  | some dup ↦ http_error 409
  | none ↦ ok (save_account st r.id (new_account now org r))
]

-- The new login of an update, or none where another account of the game has it.
abbrev pub new_login : Store → String → String → GameAccount → Option String → Option String
new_login st id org a none = some a.login
new_login st id org a (some login) =
    if login == a.login
    then some a.login
    else if_some (find_row (has_login org a.game login) (remove st.accounts id)) none (some login)

abbrev pub when_free : AccountStatus → GameAccount → GameAccount
when_free s a =
    if is_free s
    then record a { device_id = none; assigned_at = none; cooldown_until = none }
    else a

abbrev pub update_status : ℕ → Option AccountStatus → Option String → GameAccount → GameAccount
update_status now none reason a = record a {
  status_reason = or_keep (reason_of reason) a.status_reason;
}
update_status now (some s) reason a =
    if value s == value a.status
    then a
    else when_free s
        (record a { status = s; status_changed_at = some now; status_reason = reason_of reason })

abbrev pub update_profile : ℕ → UpdateRequest → GameAccount → GameAccount
update_profile now u a = record a {
  server_name = or_keep u.server_name a.server_name;
  nickname = or_keep u.nickname a.nickname;
  level = or_keep u.level a.level;
  target_level = or_keep u.target_level a.target_level;
  experience = or_keep u.experience a.experience;
  balance_rub = or_keep u.balance_rub a.balance_rub;
  balance_bc = or_keep u.balance_bc a.balance_bc;
  last_balance_update =
      if_some u.balance_rub (some now) (if_some u.balance_bc (some now) a.last_balance_update);
}

abbrev pub set_secret : String → Option String → GameAccount → GameAccount
set_secret login none a = record a { login = login }
set_secret login (some password) a = record a { login = login; password_encrypted = password }

abbrev pub updated : ℕ → UpdateRequest → String → GameAccount → GameAccount
updated now u login a =
    update_profile now u
      (update_status now u.status u.status_reason (set_secret login u.password a))

abbrev pub write_update :
    ℕ → Store → String → UpdateRequest → GameAccount → Option String → Reply Store
write_update now st id u a none = http_error 409
write_update now st id u a (some login) = ok (save_account st id (updated now u login a))

abbrev pub update_found :
    ℕ → Store → String → String → UpdateRequest → Option GameAccount → Reply Store
update_found now st id org u none = http_error 404
update_found now st id org u (some a) = write_update now st id u a (new_login st id org a u.login)

unfoldable pub update_account : ℕ → Store → String → String → UpdateRequest → Reply Store
update_account now st id org u = update_found now st id org u (get_account st id org)

unfoldable pub delete_account : Store → String → String → Reply Store
delete_account st id org = elim (get_account st id org) [
  | none ↦ http_error 404
  | some a ↦ ok (record st { accounts = remove st.accounts id })
]

-- The device, if the organisation has it.
unfoldable pub org_device : Store → String → String → Option Device
org_device st device org = elim (get st.devices device) [
  | none ↦ none
  | some d ↦ if d.org_id == org then some d else none
]

abbrev pub attach : ℕ → String → StatusReason → GameAccount → GameAccount
attach now device reason a = record a {
  device_id = some device;
  assigned_at = some now;
  status = in_use;
  status_changed_at = some now;
  status_reason = some reason;
}

abbrev pub assign_found :
    ℕ → Store → String → String → Option Device → Option GameAccount → Reply Store
assign_found now st id device d none = http_error 404
assign_found now st id device none (some a) = http_error (if is_free a.status then 404 else 409)
assign_found now st id device (some d) (some a) =
    if is_free a.status
    then ok (save_account st id (attach now device (assigned_to d.name) a))
    else http_error 409

unfoldable pub assign_account : ℕ → Store → String → String → String → Reply Store
assign_account now st id org device =
    assign_found now st id device (org_device st device org) (get_account st id org)

-- `cooldown_minutes` of the request, 0 where it is absent.
abbrev pub released : ℕ → ℕ → GameAccount → GameAccount
released now minutes a =
    let ended : GameAccount = record a {
      total_sessions = suc a.total_sessions;
      last_session_end = some now;
      device_id = none;
      assigned_at = none;
      status_changed_at = some now;
    } in
    if ltb 0 minutes
    then record ended {
      status = cooldown;
      cooldown_until = some (now + minutes * 60);
      status_reason = some (cooldown_for minutes);
    }
    else record ended { status = free; cooldown_until = none; status_reason = none }

abbrev pub release_found : ℕ → Store → String → ℕ → Option GameAccount → Reply Store
release_found now st id minutes none = http_error 404
release_found now st id minutes (some a) =
    if is_in_use a.status then ok (save_account st id (released now minutes a)) else http_error 409

unfoldable pub release_account : ℕ → Store → String → String → ℕ → Reply Store
release_account now st id org minutes = release_found now st id minutes (get_account st id org)

-- `ImportAccountsResponse`, and the store.
pub record Import : Type 0 where
  pub store : Store
  pub created : ℕ
  pub skipped : ℕ

-- An import sets neither the target level nor the experience.
abbrev pub imported_account : ℕ → String → CreateRequest → GameAccount
imported_account now org r =
    new_account now org (record r { target_level = none; experience = none })

abbrev pub import_item : ℕ → String → Import → CreateRequest → Import
import_item now org i r =
    if_some (find_row (has_login org r.game r.login) i.store.accounts)
      (record i { skipped = suc i.skipped })
      (record i {
        store = save_account i.store r.id (imported_account now org r);
        created = suc i.created;
      })

abbrev pub import_items : ℕ → String → Import → List CreateRequest → Import
import_items now org i [] = i
import_items now org i (r ∷ items) = import_items now org (import_item now org i r) items

-- The items carry the id that their row gets; a row that the database refuses is left out.
unfoldable pub import_accounts : ℕ → Store → String → List CreateRequest → Import
import_accounts now st org items =
    import_items now org (record { store = st; created = 0; skipped = 0 }) items

unfoldable pub count_rows : (GameAccount → Bool) → Dict GameAccount → ℕ
count_rows p [] = 0
count_rows p ((id, a) ∷ d) = let rest = count_rows p d in if p a then suc rest else rest

abbrev pub has_status : String → AccountStatus → GameAccount → Bool
has_status org s a = (a.org_id == org) && (value a.status == value s)

abbrev pub reached : Option ℕ → Option ℕ → Bool
reached (some level) (some target) = leb target level
reached _ _ = false

pub record Stats : Type 0 where
  pub total : ℕ
  pub by_status : AccountStatus → ℕ
  pub leveled : ℕ

unfoldable pub get_stats : Store → String → Stats
get_stats st org = record {
  total = count_rows (λ a. a.org_id == org) st.accounts;
  by_status = λ s. count_rows (has_status org s) st.accounts;
  leveled = count_rows (λ a. (a.org_id == org) && reached a.level a.target_level) st.accounts;
}
