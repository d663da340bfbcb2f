-- ===== src/Accounts/Banned.antt =====
-- backend/services/event_reactor.py: the steps of a ban: the row of the account, of its session, and
-- the rotation.
use sphere_platform.Base.{
  ℕ, suc, String, Bool, true, false, Option, none, some, List, [], ◌∷◌, arith, ◌≡◌, ◌≢◌, refl, sym,
  ◌∙◌, ap, eq_iff, Bool-cases, inl, inr, keep_if,
}
use sphere_platform.Base.Dict.{get, remove, get-put_same}
use sphere_platform.Base.Dict.Find.{find_row, find_row-none, find_row-some}
use sphere_platform.Base.Dict.Size.{IsDict, put-IsDict, remove-IsDict}
use sphere_platform.Base.Dict.Rows.{row-remove, get-remove_other, get-put_other}
use sphere_platform.Tasks.Service.{ok}
use sphere_platform.Accounts.Account.{
  banned, rotated_from, GameAccount, AccountSession, Store, save_account,
}
use sphere_platform.Accounts.Service.{attach}
use sphere_platform.Accounts.Sessions.{one_or_none, is_active, get_active_session, opened}
use sphere_platform.Accounts.Reactor.{
  Event, Rotation, not_tried, no_free_accounts, success, reacted, count_session, can_rotate,
  rotation_session, close_row, try_rotate_account, rotate_to, rotation_of, rotate_from,
}

-- What a ban has done before the rotation looks for another account.
pub record IsBanned (st mid : Store) (id : String) (a c : GameAccount) : Type 0 where
  pub row : get mid.accounts id ≡ some c
  pub status : c.status ≡ banned
  pub device : c.device_id ≡ none
  pub bans : c.total_bans ≡ suc a.total_bans
  pub game : c.game ≡ a.game
  pub level : c.level ≡ a.level
  pub balance : c.balance_rub ≡ a.balance_rub
  pub others : (i : String) → id ≢ i → get mid.accounts i ≡ get st.accounts i
  pub rows : IsDict mid.accounts

pub reacted-IsBanned :
    (now : ℕ) (st : Store) (e : Event) (id : String) (a : GameAccount)
    → e.event_type ≡ "account.banned"
    → IsDict st.accounts
    → IsBanned st (save_account st id (reacted now e banned a)) id a (reacted now e banned a)
reacted-IsBanned now st e id a t d = record {
  row = get-put_same st.accounts id (reacted now e banned a);
  status = ground arith;
  device = ground arith;
  bans = ground (arith, t, eq_iff e.event_type "account.banned");
  game = ground arith;
  level = ground arith;
  balance = ground arith;
  others = λ i h. get-put_other st.accounts id i (reacted now e banned a) h;
  rows = put-IsDict st.accounts id (reacted now e banned a) d;
}

-- The one row of a query meets its filter.
module _ {A : Type 0} (p : A → Bool) where
  one_of :
      (y x : A) (rest : List A) → one_or_none (y ∷ rest) ≡ ok (some x) → p y ≡ true → p x ≡ true
  one_of y x [] q k = ground (arith, q, k)
  one_of y x (z ∷ rest) q k = ground (arith, q)

  one_or_none-keeps : (xs : List A) (x : A) → one_or_none (keep_if p xs) ≡ ok (some x) → p x ≡ true
  one_or_none-keeps [] x h = ground (arith, h)
  one_or_none-keeps (y ∷ ys) x h = elim (Bool-cases (p y)) [
    | inr k ↦ one_or_none-keeps ys x (rw k at h)
    | inl k ↦ one_of y x (keep_if p ys) (rw k at h) k
  ]

pub active_account :
    (st : Store) (account org sid : String) (s : AccountSession)
    → get_active_session st account org ≡ ok (some (sid, s))
    → s.account_id ≡ account
unfolding get_active_session is_active
active_account st account org sid s h =
    let k : is_active account org (sid, s) ≡ true =
      one_or_none-keeps (is_active account org) st.sessions (sid, s) h in
    ground (arith, k, eq_iff s.account_id account)

-- Closing the session counts it, and leaves the ban as it is.
pub close_row-IsBanned :
    (now : ℕ) (reason : String) (e : Event) (st mid : Store) (id sid : String) (a c : GameAccount)
    (s : AccountSession)
    → IsBanned st mid id a c
    → s.account_id ≡ id
    → IsBanned st
        (close_row now mid reason e sid s (get mid.accounts s.account_id))
        id
        a
        (count_session now c)
close_row-IsBanned now reason e st mid id sid a c s b own =
    rw (own, b.row)
      (record {
        row = get-put_same mid.accounts id (count_session now c);
        status = b.status;
        device = b.device;
        bans = b.bans;
        game = b.game;
        level = b.level;
        balance = b.balance;
        others = λ i h. get-put_other mid.accounts id i (count_session now c) h ∙ b.others i h;
        rows = put-IsDict mid.accounts id (count_session now c) b.rows;
      })

-- The row of a session that a ban ends: it says when and why, and what the account has.
abbrev pub ended : ℕ → Event → GameAccount → AccountSession → AccountSession
ended now e a s = record s {
  ended_at = some now;
  end_reason = some "banned";
  error_message = e.message;
  level_after = a.level;
  balance_after = a.balance_rub;
}

abbrev pub Ended : ℕ → Event → GameAccount → Store → Option (String × AccountSession) → Type 0
Ended now e a st' none = Unit
Ended now e a st' (some (sid, s)) = get st'.sessions sid ≡ some (ended now e a s)

-- The id of a session that is not the active one.
abbrev pub IsNew : String → Option (String × AccountSession) → Type 0
IsNew new none = Unit
IsNew new (some (sid, s)) = new ≢ sid

pub close_row-ended :
    (now : ℕ) (e : Event) (st mid : Store) (id sid : String) (a c : GameAccount)
    (s : AccountSession)
    → IsBanned st mid id a c
    → s.account_id ≡ id
    → get (close_row now mid "banned" e sid s (get mid.accounts s.account_id)).sessions sid
      ≡ some (ended now e a s)
close_row-ended now e st mid id sid a c s b own =
    let row = get-put_same mid.sessions sid (ended now e c s) in
    let same : ended now e c s ≡ ended now e a s =
      ap
        (λ (x : Option ℕ × Option ℕ). record s {
          ended_at = some now;
          end_reason = some "banned";
          error_message = e.message;
          level_after = x.0;
          balance_after = x.1;
        })
        (ground (arith, b.level, b.balance)) in
    let found = ap (get mid.accounts) own ∙ b.row in
    ap (λ (o : Option GameAccount). get (close_row now mid "banned" e sid s o).sessions sid) found
    ∙ row
    ∙ ap some same

pub rotation_keeps_session :
    (now : ℕ) (new : String) (st : Store) (e : Event) (id sid : String)
    → new ≢ sid
    → get (rotation_of (try_rotate_account now new st e id)).1.sessions sid ≡ get st.sessions sid
unfolding try_rotate_account
rotation_keeps_session now new st e id sid other = from (get st.accounts id)
  where
    to :
        (old : GameAccount) (o : Option (String × GameAccount))
        → get (rotation_of (rotate_to now new st e old o)).1.sessions sid ≡ get st.sessions sid
    to old none = refl
    to old (some (i, x)) = get-put_other st.sessions new sid _ other

    from :
        (o : Option GameAccount)
        → get (rotation_of (rotate_from now new st e id o)).1.sessions sid ≡ get st.sessions sid
    from none = refl
    from (some old) = to old _

-- What the rotation comes to.
abbrev pub Rotates : ℕ → String → Store → Store → Event → String → String → Rotation → Type 0
Rotates now new st st' e id game not_tried = ⊥
Rotates now new st st' e id game no_free_accounts =
    (i : String) (x : GameAccount)
    → id ≢ i
    → get st.accounts i ≡ some x
    → can_rotate e.org_id game x ≡ false
Rotates now new st st' e id game (success i) =
    (id ≢ i)
    × ((x : GameAccount) × (old : String) × (get st.accounts i ≡ some x)
        × (can_rotate e.org_id game x ≡ true)
        × (get st'.accounts i ≡ some (attach now e.device_id (rotated_from old) x))
        × (get st'.sessions new ≡ some (opened now e.org_id (some x) (rotation_session new i e))))

abbrev pub Banned : Store → Store → String → GameAccount → Type 0
Banned st st' id a =
    (c : GameAccount) × (get st'.accounts id ≡ some c)
    × (c.status ≡ banned)
    × (c.device_id ≡ none)
    × (c.total_bans ≡ suc a.total_bans)

pub try_rotate_account-Rotates :
    (now : ℕ) (new : String) (st mid : Store) (e : Event) (id : String) (a c : GameAccount)
    → IsBanned st mid id a c
    → let (r, st') = rotation_of (try_rotate_account now new mid e id) in
      (Banned st st' id a) × Rotates now new st st' e id a.game r
unfolding try_rotate_account
try_rotate_account-Rotates now new st mid e id a c b =
    rw (try_rotate_account, b.row, b.game) (turn _ refl)
  where
    turn :
        (o : Option (String × GameAccount))
        → find_row (can_rotate e.org_id a.game) (remove mid.accounts id) ≡ o
        → let (r, st') = rotation_of (rotate_to now new mid e c o) in
          (Banned st st' id a) × Rotates now new st st' e id a.game r
    turn none k = (
      (c, b.row, b.status, b.device, b.bans),
      λ i x h at.
          find_row-none _ (remove mid.accounts id) k i x
            (get-remove_other mid.accounts id i h ∙ b.others i h ∙ at),
    )
    turn (some (i, x)) k =
        let (found, fit) =
          find_row-some _ (remove mid.accounts id) i x (remove-IsDict mid.accounts id b.rows) k in
        let (other, at) = row-remove mid.accounts id i x found in
        let y = attach now e.device_id (rotated_from c.login) x in
        (
          (
            c,
            get-put_other mid.accounts i id y (λ q. other (sym q)) ∙ b.row,
            b.status,
            b.device,
            b.bans,
          ),
          (
            other,
            (
              x,
              c.login,
              sym (b.others i other) ∙ at,
              fit,
              get-put_same mid.accounts i y,
              get-put_same mid.sessions new
                  (opened now e.org_id (some x) (rotation_session new i e)),
            ),
          ),
        )
