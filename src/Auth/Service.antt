-- ===== src/Auth/Service.antt =====
-- backend/services/auth_service.py: `AuthService`, with `create_access_token` of
-- backend/core/security.py and `verify_totp` of backend/services/mfa_service.py. A call reads the
-- clock once, and a commit that the database refuses leaves its tables as they were.
use sphere_platform.Base.{
  ℕ, ◌+◌, ◌-◌, ◌*◌, String, Bool, true, false, ◌&&◌, Option, none, some, ◌==◌, ltb, if◌then◌else◌,
  truthy,
}
use sphere_platform.Base.Dict.{Dict, get, put}
use sphere_platform.Base.Dict.Find.{find_row}
use sphere_platform.Base.Dict.Size.{is_some}
use sphere_platform.Auth.{
  User, RefreshToken, Store, Settings, Outside, Drawn, TokenPair, too_many_attempts,
  invalid_credentials, invalid_token, integrity_error, Outcome, raised, mfa_required, tokens,
}
use sphere_platform.Auth.CacheService.{check_rate_limit, set, get_text, delete, blacklist_token}

-- A new row, where no other has its hash.
abbrev pub insert : Dict RefreshToken → String → RefreshToken → Option (Dict RefreshToken)
insert d h t = if is_some (get d h) then none else some (put d h t)

abbrev pub revoke : ℕ → RefreshToken → RefreshToken
revoke now t = record t { revoked = true; revoked_at = some now }

abbrev pub or_empty : Option String → String
or_empty none = ""
or_empty (some s) = s

module _ (O : Outside) (S : Settings) where
  abbrev pub create_access_token : ℕ → String → String → String → String → String
  create_access_token now jti subject org role = O.encode (record {
    sub = subject;
    org_id = org;
    role = role;
    jti = jti;
    kind = "access";
    iat = now;
    exp = now + S.jwt_access_token_expire_minutes * 60;
  })

  abbrev pub new_token : ℕ → String → User → RefreshToken
  new_token now id u = record {
    org_id = u.org_id;
    user_id = id;
    expires_at = now + S.jwt_refresh_token_expire_days * 86400;
    revoked = false;
    revoked_at = none;
  }

  abbrev pub pair : ℕ → Drawn → String → User → TokenPair
  pair now r id u = record {
    access_token = create_access_token now r.jti id u.org_id u.role;
    expires_in = S.jwt_access_token_expire_minutes * 60;
    refresh_token = r.refresh_token;
    user_id = id;
  }

  -- A commit that raises leaves the store that it is given.
  abbrev pub committed :
      Store → TokenPair → Dict User → Option (Dict RefreshToken) → Outcome × Store
  committed st p users none = (raised integrity_error, st)
  committed st p users (some d) = (tokens p, record st { users = users; refresh_tokens = d })

  unfoldable pub issue_tokens : ℕ → Drawn → Store → String → User → Outcome × Store
  issue_tokens now r st id u =
      committed st (pair now r id u) (put st.users id (record u { last_login_at = some now }))
        (insert st.refresh_tokens (O.sha256 r.refresh_token) (new_token now id u))

  abbrev pub verify_totp : ℕ → String → String → Bool
  verify_totp now secret code =
      if secret == "" then false else if code == "" then false else O.totp now secret code

  -- The user is known, and the password is checked before the second factor.
  abbrev pub admit : ℕ → Drawn → Store → String → Option (String × User) → Outcome × Store
  admit now r st password none = (raised invalid_credentials, st)
  admit now r st password (some (id, u)) =
      if u.is_active && O.checkpw password u.password_hash
      then if u.mfa_enabled
        then (
          mfa_required r.state_token,
          record st { cache = set now st.cache r.state_token id 300 },
        )
        else issue_tokens now r st id u
      else (raised invalid_credentials, st)

  unfoldable pub login : ℕ → Drawn → Store → String → String → String → Outcome × Store
  login now r st email password ip =
      let (allowed, current, cache) = check_rate_limit now st.cache ip 60 5 in
      let counted = record st { cache = cache } in
      if allowed
      then admit now r counted password (find_row (λ u. u.email == email) counted.users)
      else (raised too_many_attempts, counted)

  -- The old token is revoked and the new one stored in one commit.
  abbrev pub rotate : ℕ → Drawn → Store → String → RefreshToken → Option User → Outcome × Store
  rotate now r st h t none = (raised (invalid_token "User not found or inactive"), st)
  rotate now r st h t (some u) =
      if u.is_active
      then committed st (pair now r t.user_id u) st.users (
          insert (put st.refresh_tokens h (revoke now t)) (O.sha256 r.refresh_token)
            (new_token now t.user_id u))
      else (raised (invalid_token "User not found or inactive"), st)

  abbrev pub refresh_row : ℕ → Drawn → Store → String → Option RefreshToken → Outcome × Store
  refresh_row now r st h none = (raised (invalid_token "Refresh token not found"), st)
  refresh_row now r st h (some t) =
      if t.revoked
      then (raised (invalid_token "Refresh token already revoked"), st)
      else if ltb t.expires_at now
      then (raised (invalid_token "Refresh token expired"), st)
      else rotate now r st h t (get st.users t.user_id)

  unfoldable pub refresh : ℕ → Drawn → Store → String → Outcome × Store
  refresh now r st raw = let h = O.sha256 raw in refresh_row now r st h (get st.refresh_tokens h)

  abbrev pub revoke_row : ℕ → Store → String → Option RefreshToken → Store
  revoke_row now st h none = st
  revoke_row now st h (some t) =
      if t.revoked
      then st
      else record st { refresh_tokens = put st.refresh_tokens h (revoke now t) }

  abbrev pub revoke_given : ℕ → Store → Option String → Store
  revoke_given now st none = st
  revoke_given now st (some raw) =
      let h = O.sha256 raw in revoke_row now st h (get st.refresh_tokens h)

  unfoldable pub logout : ℕ → Store → String → ℕ → Option String → Store
  logout now st jti token_exp refresh_token =
      let remaining = token_exp - now in
      let listed =
        if ltb 0 remaining
        then record st { cache = blacklist_token now st.cache jti remaining }
        else st in
      revoke_given now listed (truthy refresh_token)

  abbrev pub second_step :
      ℕ → Drawn → Store → String → String → String → Option User → Outcome × Store
  second_step now r st state code id none = (raised invalid_credentials, st)
  second_step now r st state code id (some u) =
      if u.is_active && verify_totp now (or_empty u.mfa_secret) code
      then issue_tokens now r (record st { cache = delete st.cache state }) id u
      else (raised invalid_credentials, st)

  abbrev pub mfa_user : ℕ → Drawn → Store → String → String → Option String → Outcome × Store
  mfa_user now r st state code none = (raised (invalid_token "MFA session expired or invalid"), st)
  mfa_user now r st state code (some id) = second_step now r st state code id (get st.users id)

  unfoldable pub complete_mfa_login : ℕ → Drawn → Store → String → String → Outcome × Store
  complete_mfa_login now r st state code =
      mfa_user now r st state code (truthy (get_text now st.cache state))
