-- ===== src/Auth/Throttle.antt =====
-- backend/services/auth_service.py, backend/services/cache_service.py: the limit on logins of an
-- address. Each attempt sets the expiry of the counter anew.
use sphere_platform.Base.{
  ℕ, ◌+◌, ◌≤◌, ◌<◌, suc, String, false, Option, none, some, List, [], ◌∷◌, ◌==◌, ◌≡◌, ◌⊎◌, inl, inr,
  ◌&&◌, if_both, refl, ap, ◌∙◌, arith, leb, lt→ltb,
}
use sphere_platform.Base.Dict.{Dict, get, put, get-put_same}
use sphere_platform.Base.Dict.Find.{find_row}
use sphere_platform.Auth.{
  User, RefreshToken, Store, Settings, Outside, Drawn, TokenPair, Outcome, raised,
  too_many_attempts,
}
use sphere_platform.Auth.CacheService.{Cache, check_rate_limit, set, alive, count_of}
use sphere_platform.Auth.Service.{committed, issue_tokens, admit, login}

pub record Try : Type 0 where
  pub now : ℕ
  pub drawn : Drawn
  pub email : String
  pub password : String

-- Each try comes within a minute of the one before.
unfoldable pub Close : ℕ → List Try → Type 0
Close t [] = Unit
Close t (x ∷ xs) = (t ≤ x.now) × (x.now < t + 60) × Close x.now xs

unfoldable pub last : ℕ → List Try → ℕ
last t [] = t
last t (x ∷ xs) = last x.now xs

unfoldable pub count : List Try → ℕ
count [] = 0
count (x ∷ xs) = suc (count xs)

leb_over : (n : ℕ) → 6 ≤ n → leb n 5 ≡ false
leb_over n h = ground (arith, h)

count_up :
    (d : Dict (ℕ × ℕ)) (ip : String) (now t n : ℕ)
    → (n ≡ 0) ⊎ (((m : ℕ) × (get d ip ≡ some (m, t + 60)) × (n ≤ m)) × (now < t + 60))
    → suc n ≤ count_of (alive now (get d ip)) + 1
count_up d ip now t n (inl e) = ground (arith, e)
count_up d ip now t n (inr ((m, at, le), soon)) =
    rw (at, lt→ltb now (t + 60) soon) (ground (arith, le))

-- The address was counted at least n times, the last time at t.
abbrev pub Counted : Cache → String → ℕ → ℕ → Type 0
Counted c ip t n = (m : ℕ) × (get c.counters ip ≡ some (m, t + 60)) × (n ≤ m)

module _ (O : Outside) (S : Settings) where
  abbrev HasCounters : Dict (ℕ × ℕ) → Outcome × Store → Type 0
  HasCounters d x = x.1.cache.counters ≡ d

  committed-counters :
      (st : Store) (p : TokenPair) (users : Dict User) (o : Option (Dict RefreshToken))
      → (committed O S st p users o).1.cache.counters ≡ st.cache.counters
  committed-counters st p users none = refl
  committed-counters st p users (some d) = refl

  admit-counters :
      (now : ℕ) (r : Drawn) (st : Store) (password : String) (o : Option (String × User))
      → (admit O S now r st password o).1.cache.counters ≡ st.cache.counters
  unfolding issue_tokens set
  admit-counters now r st password none = refl
  admit-counters now r st password (some (id, u)) =
      if_both (HasCounters st.cache.counters) (u.is_active && O.checkpw password u.password_hash) _
        _
        (if_both (HasCounters st.cache.counters) u.mfa_enabled _ _ refl
          (committed-counters st _ _ _))
        refl

  abbrev CountedAfter : String → ℕ → ℕ → Outcome × Store → Type 0
  CountedAfter ip t n x = Counted x.1.cache ip t n

  -- Every try is counted, with the right password too.
  login-Counted :
      (x : Try) (st : Store) (ip : String) (t n : ℕ)
      → (n ≡ 0) ⊎ (Counted st.cache ip t n × (x.now < t + 60))
      → Counted (login O S x.now x.drawn st x.email x.password ip).1.cache ip x.now (suc n)
  unfolding login check_rate_limit
  login-Counted x st ip t n h =
      let d = st.cache.counters in
      let current = count_of (alive x.now (get d ip)) + 1 in
      let counted = record st {
        cache = record st.cache { counters = put d ip (current, x.now + 60) };
      } in
      let found = find_row (λ u. u.email == x.email) st.users in
      let at = get-put_same d ip (current, x.now + 60) in
      let many = count_up d ip x.now t n h in
      if_both (CountedAfter ip x.now (suc n)) (leb current 5) _ _
        (
          current,
          ap (λ e. get e ip) (admit-counters x.now x.drawn counted x.password found) ∙ at,
          many,
        )
        (current, at, many)

  pub logins : Store → String → List Try → Store
  logins st ip [] = st
  logins st ip (x ∷ xs) = logins (login O S x.now x.drawn st x.email x.password ip).1 ip xs

  logins-Counted :
      (xs : List Try) (st : Store) (ip : String) (t n : ℕ)
      → Counted st.cache ip t n
      → Close t xs
      → Counted (logins st ip xs).cache ip (last t xs) (n + count xs)
  unfolding logins Close last count
  logins-Counted [] st ip t n (m, at, le) close = (m, at, ground (arith, le))
  logins-Counted (x ∷ xs) st ip t n h (after, before, close) =
      let (m, at, le) =
        logins-Counted xs _ ip x.now (suc n) (login-Counted x st ip t n (inr (h, before))) close in
      (m, at, ground (arith, le))

  -- Tries of an address that follow each other within a minute add up: from the sixth on a login
  -- raises that there were too many, however long the tries have gone on, and whatever the password.
  pub login_throttled :
      (st : Store) (ip : String) (x : Try) (xs : List Try) (y : Try)
      → Close x.now xs
      → 4 ≤ count xs
      → y.now < last x.now xs + 60
      → (login O S y.now y.drawn (logins st ip (x ∷ xs)) y.email y.password ip).0
        ≡ raised too_many_attempts
  unfolding logins login check_rate_limit
  login_throttled st ip x xs y close many soon =
      let first = login-Counted x st ip 0 0 (inl refl) in
      let one = (login O S x.now x.drawn st x.email x.password ip).1 in
      let counted = logins-Counted xs one ip x.now 1 first close in
      let d = (logins one ip xs).cache.counters in
      let over = count_up d ip y.now (last x.now xs) (1 + count xs) (inr (counted, soon)) in
      let n = count_of (alive y.now (get d ip)) + 1 in
      rw (leb_over n (ground (arith, over, many))) refl
