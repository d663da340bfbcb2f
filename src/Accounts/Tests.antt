-- ===== src/Accounts/Tests.antt =====
-- Runs of the account services at concrete tables.
use sphere_platform.Base.{
  ℕ, String, none, some, List, [], ◌∷◌, ◌≡◌, refl, suc, ◌+◌, length, subst, arith, eq_iff,
}
use sphere_platform.Base.Dict.{get, put, remove}
use sphere_platform.Base.Dict.Find.{find_row}
use sphere_platform.Tasks.Service.{ok, raised}
use sphere_platform.Accounts.Account.{
  free, banned, disabled, GameAccount, Device, Store, get_account, assigned_to, rotated_from,
  AccountSession,
}
use sphere_platform.Accounts.Service.{
  CreateRequest, new_account, attach, create_account, assign_account, release_account, org_device,
  import_accounts, has_login,
}
use sphere_platform.Accounts.Sessions.{
  StartRequest, start_session, get_active_session, is_active, opened,
}
use sphere_platform.Accounts.Reactor.{
  Event, process_event, success, can_rotate, update_account_status, end_active_session,
  try_rotate_account, reacted, rotation_session,
}
use sphere_platform.Accounts.Steps.{StepRun}
use sphere_platform.Accounts.Invariant.{IsSound}
use sphere_platform.Accounts.Invariant.History.{
  Call, create, assign, event, calls, calls-IsSound, call,
}
use sphere_platform.Accounts.Release.{release_account-assign_account}
use sphere_platform.Accounts.Banned.{Banned}
use sphere_platform.Accounts.Twice.{process_event-two_sessions}
use sphere_platform.Accounts.Import.{import_accounts-again}
use sphere_platform.Accounts.Invariant.Service.{settle}

abbrev item : String → String → CreateRequest
item id login = record {
  id = id;
  game = "g";
  login = login;
  password = "p";
  server_name = none;
  nickname = none;
  level = some 3;
  target_level = some 2;
  experience = none;
  balance_rub = some 10;
  balance_bc = none;
}

abbrev phone : Device
phone = record { org_id = "o"; name = "phone" }

abbrev account : String → GameAccount
account login = new_account 1 "o" (item "x" login)

abbrev taken : GameAccount
taken = attach 2 "d" (assigned_to "phone") (account "ann")

abbrev failure : Event
failure = record {
  org_id = "o";
  device_id = "d";
  event_type = "account.error";
  message = none;
  account_id = some "c";
}

abbrev lost : GameAccount
lost = reacted 3 failure disabled (account "eve")

abbrev empty : Store
empty = record { accounts = []; sessions = []; devices = ("d", phone) ∷ [] }

abbrev three : Store
three = record {
  accounts = ("a", taken) ∷ ("b", account "bob") ∷ ("c", lost) ∷ [];
  sessions = [];
  devices = ("d", phone) ∷ [];
}

abbrev ban : Event
ban = record {
  org_id = "o";
  device_id = "d";
  event_type = "account.banned";
  message = none;
  account_id = some "a";
}

abbrev start_a : String → StartRequest
start_a id = record {
  id = id;
  account_id = "a";
  device_id = "d";
  script_id = none;
  task_id = none;
  pipeline_run_id = none;
}

abbrev run : StepRun
run = record {
  id = "r";
  org_id = "o";
  device_id = "d";
  pipeline_id = "p";
  assigned_account_id = some "c";
  account_session_id = none;
}

empty-IsSound : IsSound empty.accounts
unfolding get
empty-IsSound = record {
  rows = tt;
  held = λ id a e. absurd (ground (arith, e));
  unique = λ i j a b e f s. absurd (ground (arith, e));
}

abbrev history : List (ℕ × Call)
history =
    (1, create "o" (item "a" "ann"))
    ∷ (1, create "o" (item "b" "bob"))
    ∷ (1, create "o" (item "c" "eve"))
    ∷ (2, assign "o" "a" "d")
    ∷ (3, event "s" failure)
    ∷ []

calls-IsSound_example : IsSound (calls empty history).accounts
calls-IsSound_example = calls-IsSound empty history empty-IsSound

three_made : calls empty history ≡ three
unfolding calls call get put create_account find_row has_login assign_account get_account org_device
    process_event update_account_status end_active_session get_active_session is_active
three_made = refl

three-IsSound : IsSound three.accounts
three-IsSound =
    subst (λ (st : Store). IsSound st.accounts) three_made
      (calls-IsSound empty history empty-IsSound)

release_account-assign_account_example :
    let given = settle three (assign_account 5 three "b" "o" "d") in
    let back = settle given (release_account 9 given "b" "o" 0) in
    (get_account given "b" "o" ≡ some (attach 5 "d" (assigned_to "phone") (account "bob")))
    × (get_account back "b" "o"
        ≡ some (record (account "bob") {
          status = free;
          total_sessions = suc 0;
          last_session_end = some 9;
          status_changed_at = some 9;
          status_reason = none;
          device_id = none;
          assigned_at = none;
          cooldown_until = none;
        }))
unfolding get get_account org_device
release_account-assign_account_example =
    release_account-assign_account 5 9 three "o" "b" "d" (account "bob") phone refl refl refl refl

-- The account that is banned plays.
abbrev playing : Store
playing = start_session 5 three "o" (start_a "s1")

abbrev played : AccountSession
played = opened 5 "o" (some taken) (start_a "s1")

abbrev rotated : Store
rotated = record {
  accounts =
      ("a", reacted 8 ban banned taken)
      ∷ ("b", attach 8 "d" (rotated_from "ann") (account "bob"))
      ∷ ("c", lost)
      ∷ [];
  sessions = ("s", opened 8 "o" (some (account "bob")) (rotation_session "s" "b" ban)) ∷ [];
  devices = ("d", phone) ∷ [];
}

ban_rotates : process_event 8 "s" three ban ≡ ok (success "b", rotated)
unfolding process_event get put update_account_status get_account end_active_session
    get_active_session is_active try_rotate_account find_row remove can_rotate
ban_rotates = refl

process_event-two_sessions_example :
    process_event 8 "s"
      (start_session 6 (start_session 5 three "o" (start_a "s1")) "o" (start_a "s2"))
      ban
    ≡ raised
unfolding get
process_event-two_sessions_example =
    process_event-two_sessions 5 6 8 "s" three ban "a" "banned" (start_a "s1") (start_a "s2")
      (λ e. ground (arith, e, eq_iff "s1" "s2")) refl refl refl refl

abbrev file : List CreateRequest
file = item "d" "dan" ∷ item "e" "bob" ∷ []

import_accounts-again_example :
    let one = import_accounts 5 three "o" file in
    let two = import_accounts 6 one.store "o" file in
    (one.created + one.skipped ≡ length file)
    × (two.created ≡ 0)
    × (two.skipped ≡ length file)
    × (two.store ≡ one.store)
unfolding get
import_accounts-again_example =
    import_accounts-again 5 6 three "o" file three-IsSound.rows
      (refl, ((λ e. ground (arith, e, eq_iff "d" "e")), tt), (refl, tt, tt))

import_one : (import_accounts 5 three "o" file).created ≡ 1
unfolding import_accounts find_row has_login put
import_one = refl
