-- ===== src/Accounts/Invariant/Reactor.antt =====
-- The event reactor and the account steps keep the table of accounts sound.
use sphere_platform.Base.{
  ℕ, String, false, Option, none, some, ◌==◌, arith, ◌≡◌, refl, Bool-cases, Option-cases, inl, inr,
  truthy,
}
use sphere_platform.Base.Dict.{get, remove}
use sphere_platform.Base.Dict.Find.{find_row, find_row-some}
use sphere_platform.Base.Dict.Rows.{row-remove}
use sphere_platform.Base.Dict.Size.{remove-IsDict}
use sphere_platform.Tasks.Service.{Reply, ok, http_error, raised}
use sphere_platform.Accounts.Account.{
  AccountStatus, is_free, GameAccount, AccountSession, Store, save_account, get_account,
}
use sphere_platform.Accounts.Sessions.{get_active_session}
use sphere_platform.Accounts.Reactor.{
  Event, Rotation, reacted, count_session, process_event, can_rotate, update_account_status,
  react_found, end_active_session, close_found, close_row, try_rotate_account, rotate_from,
  rotate_to, account_status_reactions, session_end_reasons, react_status, react_session, react_ban,
  react_account, rotation_of,
}
use sphere_platform.Accounts.Steps.{
  StepRun, handle_assign_account, handle_release_account, step_released, pick_account, pick_free,
  assign_picked, step_release_found, close_named, close_step,
}
use sphere_platform.Accounts.Invariant.{IsSound, edit-IsSound}
use sphere_platform.Accounts.Held.{
  step_released-IsHeld, reacted-IsHeld, count_session-IsHeld, step_released-IsSameLogin,
  reacted-IsSameLogin,
}
use sphere_platform.Accounts.Invariant.Service.{settle, get_account-row, attach-IsSound}

update_account_status-IsSound :
    (now : ℕ) (st : Store) (e : Event) (id : String) (s : AccountStatus)
    → is_free s ≡ false
    → IsSound st.accounts
    → IsSound (update_account_status now st e id s).accounts
unfolding update_account_status
update_account_status-IsSound now st e id s f h = turn _ refl
  where
    turn :
        (o : Option GameAccount)
        → get_account st id e.org_id ≡ o
        → IsSound (react_found now st e id s o).accounts
    turn none k = h
    turn (some a) k =
        let at = get_account-row st id e.org_id a k in
        edit-IsSound st.accounts id a (reacted now e s a) h at
          (reacted-IsHeld now e s a f (h.held id a at)) (reacted-IsSameLogin now e s a)

end_active_session-IsSound :
    (now : ℕ) (st : Store) (e : Event) (account reason : String)
    → IsSound st.accounts
    → IsSound (settle st (end_active_session now st e account reason)).accounts
unfolding end_active_session
end_active_session-IsSound now st e account reason h = turn (get_active_session st account e.org_id)
  where
    close :
        (id : String) (s : AccountSession) (o : Option GameAccount)
        → get st.accounts s.account_id ≡ o
        → IsSound (close_row now st reason e id s o).accounts
    close id s none k = h
    close id s (some a) k =
        edit-IsSound st.accounts s.account_id a (count_session now a) h k
          (count_session-IsHeld now a (h.held s.account_id a k))
          (record { org = refl; game = refl; login = refl })

    turn :
        (o : Reply (Option (String × AccountSession)))
        → IsSound (settle st (close_found now st reason e o)).accounts
    turn raised = h
    turn (http_error n) = h
    turn (ok none) = h
    turn (ok (some (id, s))) = close id s (get st.accounts s.account_id) refl

pub try_rotate_account-IsSound :
    (now : ℕ) (new : String) (st : Store) (e : Event) (id : String)
    → IsSound st.accounts
    → IsSound (try_rotate_account now new st e id).1.accounts
unfolding try_rotate_account
try_rotate_account-IsSound now new st e id h = turn (get st.accounts id)
  where
    pick :
        (old : GameAccount) (o : Option (String × GameAccount))
        → find_row (can_rotate e.org_id old.game) (remove st.accounts id) ≡ o
        → IsSound (rotate_to now new st e old o).1.accounts
    pick old none k = h
    pick old (some (i, a)) k =
        let found =
          (find_row-some _ (remove st.accounts id) i a (remove-IsDict st.accounts id h.rows) k).0 in
        attach-IsSound now st.accounts i e.device_id _ a h (row-remove st.accounts id i a found).1

    turn : (o : Option GameAccount) → IsSound (rotate_from now new st e id o).1.accounts
    turn none = h
    turn (some old) = pick old _ refl

-- No event makes an account free.
reactions-free :
    (t : String) (s : AccountStatus) → get account_status_reactions t ≡ some s → is_free s ≡ false
unfolding get
reactions-free t s h = ground (arith, h)

react_status-IsSound :
    (now : ℕ) (st : Store) (e : Event) (id : String) (o : Option AccountStatus)
    → get account_status_reactions e.event_type ≡ o
    → IsSound st.accounts
    → IsSound (react_status now st e id o).accounts
react_status-IsSound now st e id none k h = h
react_status-IsSound now st e id (some s) k h =
    update_account_status-IsSound now st e id s (reactions-free e.event_type s k) h

react_session-IsSound :
    (now : ℕ) (st : Store) (e : Event) (id : String) (o : Option String)
    → IsSound st.accounts
    → IsSound (settle st (react_session now st e id o)).accounts
react_session-IsSound now st e id none h = h
react_session-IsSound now st e id (some reason) h = end_active_session-IsSound now st e id reason h

rotation_of-IsSound :
    (o : Option String × Store) → IsSound o.1.accounts → IsSound (rotation_of o).1.accounts
rotation_of-IsSound (none, st) h = h
rotation_of-IsSound (some id, st) h = h

-- What an event leaves: its result, or the tables as they were.
abbrev pub settle_event : Store → Reply (Rotation × Store) → Store
settle_event st (ok (r, s)) = s
settle_event st (http_error n) = st
settle_event st raised = st

pub process_event-IsSound :
    (now : ℕ) (new : String) (st : Store) (e : Event)
    → IsSound st.accounts
    → IsSound (settle_event st (process_event now new st e)).accounts
unfolding process_event
process_event-IsSound now new st e h = turn e.account_id
  where
    ban :
        (id : String) (mid : Store) (r : Reply Store)
        → IsSound (settle mid r).accounts
        → IsSound (settle_event st (react_ban now new e id r)).accounts
    ban id mid raised k = h
    ban id mid (http_error n) k = h
    ban id mid (ok s) k = elim (Bool-cases (e.event_type == "account.banned")) [
      | inl b ↦ rw b (
          rotation_of-IsSound (try_rotate_account now new s e id)
            (try_rotate_account-IsSound now new s e id k))
      | inr b ↦ rw b k
    ]

    turn : (o : Option String) → IsSound (settle_event st (react_account now new st e o)).accounts
    turn none = h
    turn (some id) =
        let mid = react_status now st e id (get account_status_reactions e.event_type) in
        ban id mid (react_session now mid e id (get session_end_reasons e.event_type)) (
          react_session-IsSound now mid e id (get session_end_reasons e.event_type)
            (react_status-IsSound now st e id (get account_status_reactions e.event_type) refl h))

pub handle_assign_account-IsSound :
    (now : ℕ) (new : String) (st : Store) (run : StepRun) (game specific : Option String)
    → IsSound st.accounts
    → IsSound (handle_assign_account now new st run game specific).1.accounts
unfolding handle_assign_account pick_account
handle_assign_account-IsSound now new st run game specific h = elim (Option-cases (truthy game)) [
  | inl e ↦ rw (e, handle_assign_account) h
  | inr (g, e) ↦ rw (e, handle_assign_account) (picked _ (pick g))
]
  where
    Found : Option (String × GameAccount) → Type 0
    Found none = Unit
    Found (some (id, a)) = get st.accounts id ≡ some a

    free_one :
        (id : String) (o : Option GameAccount)
        → get_account st id run.org_id ≡ o
        → Found (pick_free o id)
    free_one id none k = tt
    free_one id (some a) k = elim (Bool-cases (is_free a.status)) [
      | inl f ↦ rw f (get_account-row st id run.org_id a k)
      | inr f ↦ rw f tt
    ]

    oldest :
        (g : String) (o : Option (String × GameAccount))
        → find_row (can_rotate run.org_id g) st.accounts ≡ o
        → Found o
    oldest g none k = tt
    oldest g (some (id, a)) k = (find_row-some _ st.accounts id a h.rows k).0

    pick : (g : String) → Found (pick_account st run.org_id g specific)
    pick g = elim (Option-cases (truthy specific)) [
      | inl e ↦ rw (e, pick_account) (oldest g _ refl)
      | inr (id, e) ↦ rw (e, pick_account) (free_one id _ refl)
    ]

    picked :
        (o : Option (String × GameAccount))
        → Found o
        → IsSound (assign_picked now new st run o).1.accounts
    picked none k = h
    picked (some (id, a)) k = attach-IsSound now st.accounts id run.device_id _ a h k

-- Closing the session leaves the accounts as they are.
pub close_named-accounts :
    (now : ℕ) (reason : String) (a : GameAccount) (st : Store) (o : Option String)
    → (close_named now reason a st o).accounts ≡ st.accounts
close_named-accounts now reason a st none = refl
close_named-accounts now reason a st (some id) = turn (get st.sessions id)
  where
    turn : (o : Option AccountSession) → (close_step now reason a st id o).accounts ≡ st.accounts
    turn none = refl
    turn (some s) = ground arith

pub handle_release_account-IsSound :
    (now : ℕ) (st : Store) (run : StepRun) (minutes : ℕ) (reason : String)
    → IsSound st.accounts
    → IsSound (handle_release_account now st run minutes reason).1.accounts
unfolding handle_release_account
handle_release_account-IsSound now st run minutes reason h =
    elim (Option-cases (truthy run.assigned_account_id)) [
      | inl e ↦ rw (e, handle_release_account) h
      | inr (id, e) ↦ rw (e, handle_release_account) (turn id _ refl)
    ]
  where
    turn :
        (id : String) (o : Option GameAccount)
        → get_account st id run.org_id ≡ o
        → IsSound (step_release_found now minutes reason st run id o).1.accounts
    turn id none k = h
    turn id (some a) k =
        rw
          (close_named-accounts now reason a
            (save_account st id (step_released now minutes reason a))
            (truthy run.account_session_id))
          (edit-IsSound st.accounts id a (step_released now minutes reason a) h
            (get_account-row st id run.org_id a k) (step_released-IsHeld now minutes reason a)
            (step_released-IsSameLogin now minutes reason a))
