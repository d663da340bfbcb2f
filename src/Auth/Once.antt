-- ===== src/Auth/Once.antt =====
-- backend/services/auth_service.py: a refresh token that is revoked stays so, whatever is called.
use sphere_platform.Base.{
  ℕ, ◌-◌, String, true, false, Option, none, some, List, [], ◌∷◌, ◌==◌, ◌≡◌, inl, inr, ◌&&◌,
  if_both, refl, sym, ap, ◌∙◌, arith, eq_iff, eq_true, Bool-cases, ltb, truthy,
}
use sphere_platform.Base.Dict.{Dict, get, put}
use sphere_platform.Base.Dict.Rows.{get-put_other}
use sphere_platform.Base.Dict.Size.{is_some}
use sphere_platform.Base.Dict.Find.{find_row}
use sphere_platform.Auth.{
  User, RefreshToken, Store, Settings, Outside, Drawn, TokenPair, Outcome, raised, mfa_required,
  tokens, invalid_token,
}
use sphere_platform.Auth.CacheService.{check_rate_limit, get_text}
use sphere_platform.Auth.Service.{
  insert, revoke, committed, issue_tokens, admit, login, rotate, refresh_row, refresh, revoke_row,
  revoke_given, logout, second_step, mfa_user, complete_mfa_login, verify_totp, or_empty,
}
use sphere_platform.Auth.Rotation.{Rotates, refresh-Rotates}

abbrev pub KeepsRevoked : Dict RefreshToken → Dict RefreshToken → Type 0
KeepsRevoked d d' =
    (k : String) (t : RefreshToken) → get d k ≡ some t → t.revoked ≡ true → get d' k ≡ some t

put-KeepsRevoked :
    (d : Dict RefreshToken) (h : String) (v : RefreshToken)
    → ((t : RefreshToken) → get d h ≡ some t → t.revoked ≡ false)
    → KeepsRevoked d (put d h v)
put-KeepsRevoked d h v live k t at spent = elim (Bool-cases (h == k)) [
  | inl e ↦ absurd (ground (arith, live t (ap (get d) (eq_true h k e) ∙ at), spent))
  | inr e ↦ get-put_other d h k v (λ p. ground (arith, p, e, eq_iff h k)) ∙ at
]

insert-KeepsRevoked :
    (d d' : Dict RefreshToken) (h : String) (v : RefreshToken)
    → insert d h v ≡ some d'
    → KeepsRevoked d d'
insert-KeepsRevoked d d' h v e k t at spent = elim (Bool-cases (is_some (get d h))) [
  | inl taken ↦ absurd (ground (arith, e, taken))
  | inr new ↦
      let put_is : put d h v ≡ d' = ground (arith, e, new) in
      ap (λ x. get x k) (sym put_is)
      ∙ put-KeepsRevoked d h v (λ u there. ground (arith, there, new)) k t at spent
]

module _ (O : Outside) (S : Settings) where
  abbrev Keeps : Store → Store → Type 0
  Keeps st st' = KeepsRevoked st.refresh_tokens st'.refresh_tokens

  abbrev KeepsAfter : Store → Outcome × Store → Type 0
  KeepsAfter st x = Keeps st x.1

  same : (st : Store) → Keeps st st
  same st k t at spent = at

  committed-Keeps :
      (st : Store) (p : TokenPair) (users : Dict User) (d : Dict RefreshToken) (h : String)
      (n : RefreshToken)
      → KeepsRevoked st.refresh_tokens d
      → Keeps st (committed O S st p users (insert d h n)).1
  committed-Keeps st p users d h n so_far = go (insert d h n) refl
    where
      go :
          (o : Option (Dict RefreshToken))
          → insert d h n ≡ o
          → Keeps st (committed O S st p users o).1
      go none e k t at spent = at
      go (some d') e k t at spent = insert-KeepsRevoked d d' h n e k t (so_far k t at spent) spent

  issue_tokens-Keeps :
      (now : ℕ) (r : Drawn) (st : Store) (id : String) (u : User)
      → Keeps st (issue_tokens O S now r st id u).1
  unfolding issue_tokens
  issue_tokens-Keeps now r st id u =
      committed-Keeps st _ _ st.refresh_tokens _ _ (λ k t at spent. at)

  admit-Keeps :
      (now : ℕ) (r : Drawn) (st : Store) (password : String) (o : Option (String × User))
      → Keeps st (admit O S now r st password o).1
  admit-Keeps now r st password none = same st
  admit-Keeps now r st password (some (id, u)) =
      if_both (KeepsAfter st) (u.is_active && O.checkpw password u.password_hash) _ _
        (if_both (KeepsAfter st) u.mfa_enabled _ _ (same st) (issue_tokens-Keeps now r st id u))
        (same st)

  login-Keeps :
      (now : ℕ) (r : Drawn) (st : Store) (email password ip : String)
      → Keeps st (login O S now r st email password ip).1
  unfolding login check_rate_limit
  login-Keeps now r st email password ip =
      let (allowed, current, cache) = check_rate_limit now st.cache ip 60 5 in
      let counted = record st { cache = cache } in
      if_both (KeepsAfter st) allowed _ _
        (admit-Keeps now r counted password (find_row (λ u. u.email == email) st.users)) (same st)

  rotate-Keeps :
      (now : ℕ) (r : Drawn) (st : Store) (h : String) (t : RefreshToken) (o : Option User)
      → get st.refresh_tokens h ≡ some t
      → t.revoked ≡ false
      → Keeps st (rotate O S now r st h t o).1
  rotate-Keeps now r st h t none at live = same st
  rotate-Keeps now r st h t (some u) at live =
      if_both (KeepsAfter st) u.is_active _ _
        (committed-Keeps st _ _ (put st.refresh_tokens h (revoke now t)) _ _ (
          put-KeepsRevoked st.refresh_tokens h (revoke now t)
            (λ t' at'. ground (arith, at, at', live))))
        (same st)

  refresh_row-Keeps :
      (now : ℕ) (r : Drawn) (st : Store) (h : String) (o : Option RefreshToken)
      → get st.refresh_tokens h ≡ o
      → Keeps st (refresh_row O S now r st h o).1
  refresh_row-Keeps now r st h none at = same st
  refresh_row-Keeps now r st h (some t) at = elim (Bool-cases t.revoked) [
    | inl e ↦ rw (e) (same st)
    | inr e ↦ rw (e) (
        if_both (KeepsAfter st) (ltb t.expires_at now) _ _ (same st)
          (rotate-Keeps now r st h t (get st.users t.user_id) at e))
  ]

  refresh-Keeps :
      (now : ℕ) (r : Drawn) (st : Store) (raw : String) → Keeps st (refresh O S now r st raw).1
  unfolding refresh
  refresh-Keeps now r st raw =
      refresh_row-Keeps now r st (O.sha256 raw) (get st.refresh_tokens (O.sha256 raw)) refl

  revoke_row-Keeps :
      (now : ℕ) (st : Store) (h : String) (o : Option RefreshToken)
      → get st.refresh_tokens h ≡ o
      → Keeps st (revoke_row O S now st h o)
  revoke_row-Keeps now st h none at = same st
  revoke_row-Keeps now st h (some t) at = elim (Bool-cases t.revoked) [
    | inl e ↦ rw (e) (same st)
    | inr e ↦
        rw (e) (
          put-KeepsRevoked st.refresh_tokens h (revoke now t)
            (λ t' at'. ground (arith, at, at', e)))
  ]

  revoke_given-Keeps :
      (now : ℕ) (st : Store) (o : Option String) → Keeps st (revoke_given O S now st o)
  revoke_given-Keeps now st none = same st
  revoke_given-Keeps now st (some raw) =
      revoke_row-Keeps now st (O.sha256 raw) (get st.refresh_tokens (O.sha256 raw)) refl

  logout-Keeps :
      (now : ℕ) (st : Store) (jti : String) (token_exp : ℕ) (refresh_token : Option String)
      → Keeps st (logout O S now st jti token_exp refresh_token)
  unfolding logout
  logout-Keeps now st jti token_exp refresh_token = elim (Bool-cases (ltb 0 (token_exp - now))) [
    | inl e ↦ rw (e) (revoke_given-Keeps now _ (truthy refresh_token))
    | inr e ↦ rw (e) (revoke_given-Keeps now st (truthy refresh_token))
  ]

  mfa_user-Keeps :
      (now : ℕ) (r : Drawn) (st : Store) (state code : String) (o : Option String)
      → Keeps st (mfa_user O S now r st state code o).1
  mfa_user-Keeps now r st state code none = same st
  mfa_user-Keeps now r st state code (some id) = user (get st.users id)
    where
      user : (o : Option User) → Keeps st (second_step O S now r st state code id o).1
      user none = same st
      user (some u) =
          if_both (KeepsAfter st) (u.is_active && verify_totp O S now (or_empty u.mfa_secret) code)
            _ _ (issue_tokens-Keeps now r _ id u) (same st)

  complete_mfa_login-Keeps :
      (now : ℕ) (r : Drawn) (st : Store) (state code : String)
      → Keeps st (complete_mfa_login O S now r st state code).1
  unfolding complete_mfa_login
  complete_mfa_login-Keeps now r st state code =
      mfa_user-Keeps now r st state code (truthy (get_text now st.cache state))

  -- A call of the service.
  pub data Call : Type 0 where
    login_call : ℕ → Drawn → String → String → String → Call
    refresh_call : ℕ → Drawn → String → Call
    logout_call : ℕ → String → ℕ → Option String → Call
    mfa_call : ℕ → Drawn → String → String → Call

  abbrev pub call : Store → Call → Store
  call st (login_call now r email password ip) = (login O S now r st email password ip).1
  call st (refresh_call now r raw) = (refresh O S now r st raw).1
  call st (logout_call now jti token_exp raw) = logout O S now st jti token_exp raw
  call st (mfa_call now r state code) = (complete_mfa_login O S now r st state code).1

  call-Keeps : (st : Store) (c : Call) → Keeps st (call st c)
  call-Keeps st (login_call now r email password ip) = login-Keeps now r st email password ip
  call-Keeps st (refresh_call now r raw) = refresh-Keeps now r st raw
  call-Keeps st (logout_call now jti token_exp raw) = logout-Keeps now st jti token_exp raw
  call-Keeps st (mfa_call now r state code) = complete_mfa_login-Keeps now r st state code

  pub calls : Store → List Call → Store
  calls st [] = st
  calls st (c ∷ cs) = calls (call st c) cs

  calls-Keeps : (st : Store) (cs : List Call) → Keeps st (calls st cs)
  unfolding calls
  calls-Keeps st [] k t at spent = at
  calls-Keeps st (c ∷ cs) k t at spent =
      calls-Keeps (call st c) cs k t (call-Keeps st c k t at spent) spent

  renewed :
      (now : ℕ) (r : Drawn) (st st' : Store) (raw : String) (a : Outcome) (p : TokenPair)
      → a ≡ tokens p
      → Rotates O S now r st raw a st'
      → (t : RefreshToken) × (get st'.refresh_tokens (O.sha256 raw) ≡ some t) × (t.revoked ≡ true)
  renewed now r st st' raw (raised x) p e h = absurd (ground (arith, e))
  renewed now r st st' raw (mfa_required x) p e h = absurd h
  renewed now r st st' raw (tokens q) p e (t, u, ready, pair_is, old, new, others, users) =
      (revoke now t, old, refl)

  -- A refresh token is used once: after a refresh that succeeds, and any calls that follow, another
  -- refresh with the same token raises that it is revoked, and changes nothing.
  pub refresh-once :
      (now : ℕ) (r : Drawn) (st : Store) (raw : String) (p : TokenPair)
      → (refresh O S now r st raw).0 ≡ tokens p
      → (cs : List Call) (later : ℕ) (r' : Drawn)
      → let st' = calls (refresh O S now r st raw).1 cs in
        refresh O S later r' st' raw ≡ (raised (invalid_token "Refresh token already revoked"), st')
  unfolding refresh
  refresh-once now r st raw p e cs later r' =
      let (t, at, spent) = renewed now r st _ raw _ p e (refresh-Rotates O S now r st raw) in
      let kept = calls-Keeps (refresh O S now r st raw).1 cs (O.sha256 raw) t at spent in
      rw (kept, spent) refl
