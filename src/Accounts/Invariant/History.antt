-- ===== src/Accounts/Invariant/History.antt =====
-- Every call of the services, of the event reactor and of the account steps, in any order.
use sphere_platform.Base.{
  ℕ, String, ◌&&◌, Option, none, some, List, [], ◌∷◌, ◌==◌, arith, ◌≡◌, refl, Bool-cases, inl, inr,
}
use sphere_platform.Base.Dict.{get}
use sphere_platform.Accounts.Account.{AccountSession, Store}
use sphere_platform.Accounts.Service.{
  CreateRequest, UpdateRequest, create_account, update_account, delete_account, assign_account,
  release_account, import_accounts,
}
use sphere_platform.Accounts.Sessions.{
  StartRequest, EndRequest, start_session, end_session, end_session_internal, end_found,
  end_internal_found, is_open,
}
use sphere_platform.Accounts.Reactor.{Event, process_event}
use sphere_platform.Accounts.Steps.{StepRun, handle_assign_account, handle_release_account}
use sphere_platform.Accounts.Invariant.{IsSound}
use sphere_platform.Accounts.Invariant.Service.{
  settle, create_account-IsSound, update_account-IsSound, delete_account-IsSound,
  assign_account-IsSound, release_account-IsSound, import_items-IsSound,
}
use sphere_platform.Accounts.Invariant.Reactor.{
  settle_event, process_event-IsSound, handle_assign_account-IsSound,
  handle_release_account-IsSound,
}

pub data Call : Type 0 where
  create : String → CreateRequest → Call
  update : String → String → UpdateRequest → Call
  delete : String → String → Call
  assign : String → String → String → Call
  release : String → String → ℕ → Call
  import_all : String → List CreateRequest → Call
  start : String → StartRequest → Call
  end_one : String → String → EndRequest → Call
  end_internal : String → String → Option String → ℕ → ℕ → Call
  event : String → Event → Call
  assign_step : String → StepRun → Option String → Option String → Call
  release_step : StepRun → ℕ → String → Call

unfoldable pub call : ℕ → Store → Call → Store
call now st (create org r) = settle st (create_account now st org r)
call now st (update org id u) = settle st (update_account now st id org u)
call now st (delete org id) = settle st (delete_account st id org)
call now st (assign org id device) = settle st (assign_account now st id org device)
call now st (release org id minutes) = settle st (release_account now st id org minutes)
call now st (import_all org items) = (import_accounts now st org items).store
call now st (start org r) = start_session now st org r
call now st (end_one org id r) = settle st (end_session now st id org r)
call now st (end_internal id reason error nodes errors) =
    end_session_internal now st id reason error nodes errors
call now st (event new e) = settle_event st (process_event now new st e)
call now st (assign_step new run game specific) =
    (handle_assign_account now new st run game specific).1
call now st (release_step run minutes reason) = (handle_release_account now st run minutes reason).1

unfoldable pub calls : Store → List (ℕ × Call) → Store
unfolding call
calls st [] = st
calls st ((now, c) ∷ cs) = calls (call now st c) cs

end_session-accounts :
    (now : ℕ) (st : Store) (id org : String) (r : EndRequest) (o : Option AccountSession)
    → (settle st (end_found now st id org r o)).accounts ≡ st.accounts
end_session-accounts now st id org r none = refl
end_session-accounts now st id org r (some s) = elim (Bool-cases ((s.org_id == org) && is_open s)) [
  | inl e ↦ rw e refl
  | inr e ↦ rw e refl
]

end_internal-accounts :
    (now : ℕ) (st : Store) (id reason : String) (error : Option String) (nodes errors : ℕ)
    (o : Option AccountSession)
    → (end_internal_found now st id reason error nodes errors o).accounts ≡ st.accounts
end_internal-accounts now st id reason error nodes errors none = refl
end_internal-accounts now st id reason error nodes errors (some s) = ground arith

call-IsSound :
    (now : ℕ) (st : Store) (c : Call) → IsSound st.accounts → IsSound (call now st c).accounts
unfolding call import_accounts start_session end_session end_session_internal
call-IsSound now st (create org r) h = create_account-IsSound now st org r h
call-IsSound now st (update org id u) h = update_account-IsSound now st org id u h
call-IsSound now st (delete org id) h = delete_account-IsSound st org id h
call-IsSound now st (assign org id device) h = assign_account-IsSound now st org id device h
call-IsSound now st (release org id minutes) h = release_account-IsSound now st org id minutes h
call-IsSound now st (import_all org items) h =
    import_items-IsSound now org (record { store = st; created = 0; skipped = 0 }) items h
call-IsSound now st (start org r) h = h
call-IsSound now st (end_one org id r) h =
    rw (end_session-accounts now st id org r (get st.sessions id)) h
call-IsSound now st (end_internal id reason error nodes errors) h =
    rw (end_internal-accounts now st id reason error nodes errors (get st.sessions id)) h
call-IsSound now st (event new e) h = process_event-IsSound now new st e h
call-IsSound now st (assign_step new run game specific) h =
    handle_assign_account-IsSound now new st run game specific h
call-IsSound now st (release_step run minutes reason) h =
    handle_release_account-IsSound now st run minutes reason h

-- Whatever the calls, in whatever order: no two accounts of an organisation have the same game and
-- login, a free account is on no device, and `assigned_at` is set exactly where `device_id` is,
-- when that holds at the start.
pub calls-IsSound :
    (st : Store) (cs : List (ℕ × Call)) → IsSound st.accounts → IsSound (calls st cs).accounts
unfolding calls
calls-IsSound st [] h = h
calls-IsSound st ((now, c) ∷ cs) h = calls-IsSound (call now st c) cs (call-IsSound now st c h)
