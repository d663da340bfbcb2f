-- ===== src/Accounts/Stats.antt =====
-- backend/services/game_account_service.py: what the counts of `get_stats` add up to.
use sphere_platform.Base.{
  ℕ, ◌+◌, ◌≤◌, String, Bool, true, false, ◌&&◌, [], ◌∷◌, ◌==◌, arith, ◌≡◌, if◌then◌else◌,
}
use sphere_platform.Base.Dict.{Dict}
use sphere_platform.Accounts.Account.{
  AccountStatus, free, in_use, cooldown, pending_registration, banned, captcha, phone_verify,
  disabled, archived, value, GameAccount, Store,
}
use sphere_platform.Accounts.Service.{count_rows, has_status, get_stats, reached}

abbrev sum_of : (AccountStatus → ℕ) → ℕ
sum_of f =
    f free
    + f in_use
    + f cooldown
    + f pending_registration
    + f banned
    + f captcha
    + f phone_verify
    + f disabled
    + f archived

-- A row of the organisation has one of the nine statuses.
one_status :
    (org : String) (a : GameAccount)
    → sum_of (λ s. if has_status org s a then 1 else 0) ≡ (if a.org_id == org then 1 else 0)
unfolding value
one_status org a = turn (a.org_id == org) a.status
  where
    turn :
        (b : Bool) (s : AccountStatus)
        → sum_of (λ t. if b && (value s == value t) then 1 else 0) ≡ (if b then 1 else 0)
    turn false s = omega arith
    turn true free = omega arith
    turn true in_use = omega arith
    turn true cooldown = omega arith
    turn true pending_registration = omega arith
    turn true banned = omega arith
    turn true captcha = omega arith
    turn true phone_verify = omega arith
    turn true disabled = omega arith
    turn true archived = omega arith

count_rows-cons :
    (p : GameAccount → Bool) (id : String) (a : GameAccount) (d : Dict GameAccount)
    → count_rows p ((id, a) ∷ d) ≡ (if p a then 1 else 0) + count_rows p d
unfolding count_rows
count_rows-cons p id a d = ground arith

statuses_add_up :
    (org : String) (d : Dict GameAccount)
    → sum_of (λ s. count_rows (has_status org s) d) ≡ count_rows (λ a. a.org_id == org) d
unfolding count_rows
statuses_add_up org [] = omega arith
statuses_add_up org ((id, a) ∷ d) = omega (
  arith,
  statuses_add_up org d,
  one_status org a,
  count_rows-cons (λ x. x.org_id == org) id a d,
  count_rows-cons (has_status org free) id a d,
  count_rows-cons (has_status org in_use) id a d,
  count_rows-cons (has_status org cooldown) id a d,
  count_rows-cons (has_status org pending_registration) id a d,
  count_rows-cons (has_status org banned) id a d,
  count_rows-cons (has_status org captcha) id a d,
  count_rows-cons (has_status org phone_verify) id a d,
  count_rows-cons (has_status org disabled) id a d,
  count_rows-cons (has_status org archived) id a d,
)

leveled-le :
    (org : String) (d : Dict GameAccount)
    → count_rows (λ a. (a.org_id == org) && reached a.level a.target_level) d
      ≤ count_rows (λ a. a.org_id == org) d
unfolding count_rows
leveled-le org [] = omega arith
leveled-le org ((id, a) ∷ d) = ground (arith, leveled-le org d)

-- The nine counts of the statistics add up to the total, and no more accounts are at their target
-- level than there are.
get_stats-adds_up :
    (st : Store) (org : String)
    → let s = get_stats st org in
      (s.by_status free
          + s.by_status in_use
          + s.by_status cooldown
          + s.by_status pending_registration
          + s.by_status banned
          + s.by_status captcha
          + s.by_status phone_verify
          + s.by_status disabled
          + s.by_status archived
        ≡ s.total)
      × (s.leveled ≤ s.total)
unfolding get_stats
get_stats-adds_up st org = (statuses_add_up org st.accounts, leveled-le org st.accounts)
