-- ===== src/Auth/CacheService.antt =====
-- backend/services/cache_service.py: the counters, the texts and the blacklist in Redis, each with
-- the second at which its key expires. A key stands without its prefix: each prefix has a dict.
use sphere_platform.Base.{ℕ, ◌+◌, String, Bool, Option, none, some, ltb, leb, if◌then◌else◌}
use sphere_platform.Base.Dict.{Dict, get, put, remove}
use sphere_platform.Base.Dict.Size.{is_some}

pub record Cache : Type 0 where
  pub counters : Dict (ℕ × ℕ)
  pub texts : Dict (String × ℕ)
  pub blacklist : Dict (String × ℕ)

-- A value that has not expired.
abbrev pub alive {ℓ} : {A : Type ℓ} → ℕ → Option (A × ℕ) → Option A
alive now none = none
alive now (some (a, expires)) = if ltb now expires then some a else none

abbrev pub count_of : Option ℕ → ℕ
count_of none = 0
count_of (some n) = n

-- INCR, then EXPIRE.
unfoldable pub check_rate_limit : ℕ → Cache → String → ℕ → ℕ → Bool × ℕ × Cache
check_rate_limit now c identifier window_seconds max_requests =
    let current = count_of (alive now (get c.counters identifier)) + 1 in
    (
      leb current max_requests,
      current,
      record c { counters = put c.counters identifier (current, now + window_seconds) },
    )

unfoldable pub set : ℕ → Cache → String → String → ℕ → Cache
set now c key value ttl = record c { texts = put c.texts key (value, now + ttl) }

unfoldable pub get_text : ℕ → Cache → String → Option String
get_text now c key = alive now (get c.texts key)

unfoldable pub delete : Cache → String → Cache
delete c key = record c { texts = remove c.texts key }

unfoldable pub blacklist_token : ℕ → Cache → String → ℕ → Cache
blacklist_token now c jti ttl_seconds = record c {
  blacklist = put c.blacklist jti ("1", now + ttl_seconds);
}

unfoldable pub is_token_blacklisted : ℕ → Cache → String → Bool
is_token_blacklisted now c jti = is_some (alive now (get c.blacklist jti))
