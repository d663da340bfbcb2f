-- ===== src/Accounts/Twice.antt =====
-- backend/services/account_session_service.py: `start_session` asks for no active session, and
-- backend/services/event_reactor.py takes it that there is at most one.
use sphere_platform.Base.{
  ℕ, String, Bool, true, Option, none, some, [], ◌∷◌, ◌==◌, arith, ◌≡◌, ◌≢◌, refl, sym, ◌∙◌, ap,
  eq_iff, eq_refl, Bool-cases, inl, inr, keep_if, eq_true, eq_false,
}
use sphere_platform.Base.Dict.{Dict, get, put, get-put_same}
use sphere_platform.Base.Dict.Rows.{get-put_other}
use sphere_platform.Tasks.Service.{raised}
use sphere_platform.Accounts.Account.{
  AccountStatus, GameAccount, AccountSession, Store, get_account,
}
use sphere_platform.Accounts.Sessions.{
  one_or_none, is_active, get_active_session, opened, start_session, StartRequest,
}
use sphere_platform.Accounts.Reactor.{
  Event, process_event, react_account, react_ban, react_session, react_status,
  account_status_reactions, session_end_reasons, update_account_status, react_found,
  end_active_session, close_found,
}

-- Two rows of a query are an error.
module _ (p : String × AccountSession → Bool) where
  several :
      (d : Dict AccountSession) (j : String) (t : AccountSession) (x : String × AccountSession)
      → get d j ≡ some t
      → p (j, t) ≡ true
      → one_or_none (x ∷ keep_if p d) ≡ raised
  unfolding get
  several [] j t x h k = ground (arith, h)
  several ((i, s) ∷ d) j t x h k = elim (Bool-cases (p (i, s))) [
    | inl f ↦ rw f refl
    | inr f ↦ rw f (several d j t x (ground (arith, h, k, f, eq_iff i j)) k)
  ]

  two_rows :
      (d : Dict AccountSession) (i j : String) (s t : AccountSession)
      → i ≢ j
      → get d i ≡ some s
      → get d j ≡ some t
      → p (i, s) ≡ true
      → p (j, t) ≡ true
      → one_or_none (keep_if p d) ≡ raised
  unfolding get
  two_rows [] i j s t h f g k l = ground (arith, f)
  two_rows ((x, u) ∷ d) i j s t h f g k l = elim (Bool-cases (p (x, u))) [
    | inr off ↦ rw off (
        two_rows d i j s t h (ground (arith, f, k, off, eq_iff x i))
          (ground (arith, g, l, off, eq_iff x j)) k l)
    | inl on ↦ elim (Bool-cases (x == i)) [
      | inl e ↦
          let q : x ≡ i = eq_true x i e in
          let off = eq_false x j (λ (z : x ≡ j). h (sym q ∙ z)) in
          rw on (several d j t (x, u) (ground (arith, g, off)) l)
      | inr e ↦ rw on (several d i s (x, u) (ground (arith, f, e)) k)
    ]
  ]

react_status-sessions :
    (now : ℕ) (st : Store) (e : Event) (id : String) (o : Option AccountStatus)
    → (react_status now st e id o).sessions ≡ st.sessions
unfolding update_account_status
react_status-sessions now st e id none = refl
react_status-sessions now st e id (some s) = turn (get_account st id e.org_id)
  where
    turn : (o : Option GameAccount) → (react_found now st e id s o).sessions ≡ st.sessions
    turn none = refl
    turn (some a) = refl

-- `start_session` opens a session for an account that has one already, and after two such calls each
-- event for the account that ends a session raises MultipleResultsFound, whenever it comes: its
-- transaction is lost, and an account that the event bans is not marked as banned.
pub process_event-two_sessions :
    (t1 t2 now : ℕ) (new : String) (st : Store) (e : Event) (account reason : String)
    (r1 r2 : StartRequest)
    → r1.id ≢ r2.id
    → r1.account_id ≡ account
    → r2.account_id ≡ account
    → e.account_id ≡ some account
    → get session_end_reasons e.event_type ≡ some reason
    → process_event now new (start_session t2 (start_session t1 st e.org_id r1) e.org_id r2) e
      ≡ raised
unfolding process_event start_session end_active_session get_active_session is_active
process_event-two_sessions t1 t2 now new st e account reason r1 r2 other f g named ends =
    ap (λ (o : Option String). react_account now new both e o) named
    ∙ ap (react_ban now new e account) (
        ap (react_session now mid e account) ends
        ∙ ap (close_found now mid reason e) (
            ap (λ (d : Dict AccountSession). one_or_none (keep_if (is_active account e.org_id) d))
              (react_status-sessions now both e account (get account_status_reactions e.event_type))
            ∙ two_rows (is_active account e.org_id) both.sessions r1.id r2.id s1 s2 other
                (get-put_other (put st.sessions r1.id s1) r2.id r1.id s2 (λ q. other (sym q))
                  ∙ get-put_same st.sessions r1.id s1)
                (get-put_same (put st.sessions r1.id s1) r2.id s2)
                (ground (arith, f, eq_iff r1.account_id account, eq_refl e.org_id))
                (ground (arith, g, eq_iff r2.account_id account, eq_refl e.org_id))))
  where
    first : Store
    first = start_session t1 st e.org_id r1

    s1 : AccountSession
    s1 = opened t1 e.org_id (get st.accounts r1.account_id) r1

    s2 : AccountSession
    s2 = opened t2 e.org_id (get first.accounts r2.account_id) r2

    both : Store
    both = start_session t2 first e.org_id r2

    mid : Store
    mid = react_status now both e account (get account_status_reactions e.event_type)
