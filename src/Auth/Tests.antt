-- ===== src/Auth/Tests.antt =====
-- auth_service.py: users, tokens and a stand-in for the cryptography, and the theorems at them.
use sphere_platform.Base.{
  ℕ, String, Bool, true, false, none, some, List, [], ◌∷◌, ◌==◌, ◌≡◌, refl, arith, ltb, ltb→lt,
  Bool-cases, inl, inr, subst, if◌then◌else◌, ◌<◌,
}
use sphere_platform.Auth.{
  User, Store, Settings, Outside, Drawn, raised, tokens, invalid_token, too_many_attempts, Claims,
}
use sphere_platform.Auth.CacheService.{check_rate_limit, get_text, set}
use sphere_platform.Base.Dict.{get, put}
use sphere_platform.Base.Dict.Find.{find_row}
use sphere_platform.Auth.Service.{login, refresh, complete_mfa_login, issue_tokens, pair, logout}
use sphere_platform.Auth.Rotation.{Rotates, refresh-Rotates}
use sphere_platform.Auth.Once.{Call, calls, login_call, logout_call, refresh_call, refresh-once}
use sphere_platform.Auth.Throttle.{Try, Close, last, count, logins, login_throttled}
use sphere_platform.Auth.Answers.{Admits, login-Admits, Completes, complete_mfa_login-Completes}
use sphere_platform.Auth.Access.{
  Decoded, payload, expired_signature, invalid_signature, get_current_user, get_current_user-logout,
}
use sphere_platform.Tasks.Service.{http_error}

abbrev outside : Outside
outside = record {
  sha256 = λ s. s;
  checkpw = λ password hash. password == hash;
  totp = λ now secret code. secret == code;
  encode = λ c. c.jti;
}

abbrev settings : Settings
settings = record { jwt_access_token_expire_minutes = 30; jwt_refresh_token_expire_days = 7 }

abbrev user : Bool → User
user mfa = record {
  org_id = "o";
  email = "e";
  password_hash = "p";
  role = "viewer";
  is_active = true;
  mfa_enabled = mfa;
  mfa_secret = some "m";
  last_login_at = none;
}

abbrev store : Store
store = record {
  users = ("u", user false) ∷ ("v", record (user true) { email = "f" }) ∷ [];
  refresh_tokens =
      (
        "old",
        record {
          org_id = "o";
          user_id = "u";
          expires_at = 100;
          revoked = false;
          revoked_at = none;
        },
      )
      ∷ [];
  cache = record { counters = []; texts = []; blacklist = [] };
}

abbrev draw : String → Drawn
draw s = record { jti = "j"; refresh_token = s; state_token = "s" }

refreshed :
    (refresh outside settings 50 (draw "new") store "old").0
    ≡ tokens (pair outside settings 50 (draw "new") "u" (user false))
unfolding refresh get put
refreshed = refl

refresh-Rotates_example :
    let (a, st') = refresh outside settings 50 (draw "new") store "old" in
    Rotates outside settings 50 (draw "new") store "old" a st'
refresh-Rotates_example = refresh-Rotates outside settings 50 (draw "new") store "old"

abbrev used_again : List (Call outside settings)
used_again =
    login_call 60 (draw "third") "e" "p" "ip"
    ∷ refresh_call 61 (draw "fourth") "old"
    ∷ logout_call 62 "j" 90 (some "new")
    ∷ []

refresh-once_example :
    let st' =
      calls outside settings (refresh outside settings 50 (draw "new") store "old").1 used_again in
    refresh outside settings 70 (draw "fifth") st' "old"
    ≡ (raised (invalid_token "Refresh token already revoked"), st')
refresh-once_example =
    refresh-once outside settings 50 (draw "new") store "old"
      (pair outside settings 50 (draw "new") "u" (user false)) refreshed used_again 70
      (draw "fifth")

abbrev try_at : ℕ → Try
try_at now = record { now = now; drawn = draw "t"; email = "e"; password = "wrong" }

-- A try each 50 seconds.
abbrev slow_tries : List Try
slow_tries = try_at 50 ∷ try_at 100 ∷ try_at 150 ∷ try_at 200 ∷ []

login_throttled_example :
    (login outside settings 250
      (draw "t")
      (logins outside settings store "ip" (try_at 0 ∷ slow_tries))
      "e"
      "p"
      "ip").0
    ≡ raised too_many_attempts
unfolding Close last count
login_throttled_example =
    login_throttled outside settings store "ip" (try_at 0) slow_tries
      (record { now = 250; drawn = draw "t"; email = "e"; password = "p" })
      (
        omega arith,
        omega arith,
        (omega arith, omega arith, (omega arith, omega arith, (omega arith, omega arith, tt))),
      )
      (omega arith) (omega arith)

login-Admits_example :
    let (a, st') = login outside settings 50 (draw "new") store "f" "p" "ip" in
    Admits outside settings 50 (draw "new") store "f" "p" a st'
unfolding get
login-Admits_example =
    login-Admits outside settings 50 (draw "new") store "f" "p" "ip" (refl, (refl, tt))

abbrev waiting : Store
waiting = (login outside settings 50 (draw "new") store "f" "p" "ip").1

completed :
    (complete_mfa_login outside settings 80 (draw "new") waiting "s" "m").0
    ≡ tokens (pair outside settings 80 (draw "new") "v" (record (user true) { email = "f" }))
unfolding complete_mfa_login login issue_tokens get_text get check_rate_limit find_row set put
completed = refl

complete_mfa_login-Completes_example :
    let (a, st') = complete_mfa_login outside settings 80 (draw "new") waiting "s" "m" in
    Completes outside settings 80 (draw "new") waiting "s" "m" a st'
complete_mfa_login-Completes_example =
    complete_mfa_login-Completes outside settings 80 (draw "new") waiting "s" "m"

abbrev claims : Claims
claims = record {
  sub = "u";
  org_id = "o";
  role = "viewer";
  jti = "j";
  kind = "access";
  iat = 40;
  exp = 1840;
}

-- One token, which stands for the claims above.
abbrev decode : ℕ → String → Decoded
decode now token =
    if token == "t"
    then if ltb now 1840 then payload claims else expired_signature
    else invalid_signature

decode_timely : (n : ℕ) (s : String) (c : Claims) → decode n s ≡ payload c → n < c.exp
decode_timely n s c h = elim (Bool-cases (s == "t")) [
  | inr e ↦ absurd (ground (arith, h, e))
  | inl e ↦ elim (Bool-cases (ltb n 1840)) [
    | inl k ↦
        let same : claims ≡ c = ground (arith, h, e, k) in
        subst (λ (x : Claims). n < x.exp) same (ltb→lt n 1840 k)
    | inr k ↦ absurd (ground (arith, h, e, k))
  ]
]

decode_one : (n : ℕ) (c : Claims) → decode n "t" ≡ payload c → c ≡ claims
decode_one n c h = ground (arith, h)

get_current_user-logout_example :
    get_current_user decode 60
      (logout outside settings 50 store "j" 1840 (some "old"))
      false
      (some "t")
    ≡ http_error 401
get_current_user-logout_example =
    get_current_user-logout decode outside settings decode_timely "t" claims decode_one 50 60 store
      (some "old") (omega arith)
