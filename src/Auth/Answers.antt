-- ===== src/Auth/Answers.antt =====
-- backend/services/auth_service.py: who is given tokens by the two steps of a login.
use sphere_platform.Base.{
  ℕ, ◌+◌, ◌<◌, String, Bool, true, false, Option, none, some, ◌==◌, ◌≡◌, ◌≢◌, ◌⊎◌, inl, inr, ◌&&◌,
  refl, ap, ◌∙◌, arith, eq_refl, lt→ltb, eq_iff, eq_true, Bool-cases, Option-cases, truthy,
  truthy-some,
}
use sphere_platform.Base.Dict.{get, put, get-put_same, get-remove}
use sphere_platform.Base.Dict.Size.{is_some, IsDict}
use sphere_platform.Base.Dict.Find.{find_row, find_row-some}
use sphere_platform.Auth.{
  User, Store, Settings, Outside, Drawn, Outcome, raised, mfa_required, tokens, integrity_error,
  invalid_token, invalid_credentials,
}
use sphere_platform.Auth.CacheService.{Cache, check_rate_limit, set, get_text, delete}
use sphere_platform.Auth.Service.{
  pair, new_token, issue_tokens, admit, login, second_step, mfa_user, complete_mfa_login,
  verify_totp, or_empty,
}

both : (a b : Bool) → (a && b) ≡ true → (a ≡ true) × (b ≡ true)
both true b h = (refl, h)
both false b h = absurd (ground (arith, h))

module _ (O : Outside) (S : Settings) where
  -- The commit of new tokens: one more token, and the date of the login.
  abbrev pub Issued : ℕ → Drawn → Store → String → User → Outcome → Store → Type 0
  Issued now r st id u (raised e) st' =
      (e ≡ integrity_error)
      × (is_some (get st.refresh_tokens (O.sha256 r.refresh_token)) ≡ true)
      × (st' ≡ st)
  Issued now r st id u (mfa_required s) st' = ⊥
  Issued now r st id u (tokens p) st' =
      (p ≡ pair O S now r id u)
      × (get st.refresh_tokens (O.sha256 r.refresh_token) ≡ none)
      × (st' ≡ record st {
        users = put st.users id (record u { last_login_at = some now });
        refresh_tokens = put st.refresh_tokens (O.sha256 r.refresh_token) (new_token O S now id u);
      })

  issue_tokens-Issued :
      (now : ℕ) (r : Drawn) (st : Store) (id : String) (u : User)
      → let (a, st') = issue_tokens O S now r st id u in Issued now r st id u a st'
  unfolding issue_tokens
  issue_tokens-Issued now r st id u =
      elim (Option-cases (get st.refresh_tokens (O.sha256 r.refresh_token))) [
        | inl e ↦ rw (e) (refl, e, refl)
        | inr (t, e) ↦ rw (e) (refl, ap is_some e, refl)
      ]

  Issued-cache :
      (now : ℕ) (r : Drawn) (st st' : Store) (id : String) (u : User) (a : Outcome)
      → Issued now r st id u a st'
      → st'.cache ≡ st.cache
  Issued-cache now r st st' id u (raised e) h = ap (λ (s : Store). s.cache) h.2
  Issued-cache now r st st' id u (mfa_required s) h = absurd h
  Issued-cache now r st st' id u (tokens p) h = ap (λ (s : Store). s.cache) h.2

  get_text-delete :
      (later : ℕ) (c : Cache) (key : String) → get_text later (delete c key) key ≡ none
  unfolding get_text delete
  get_text-delete later c key = rw (get-remove c.texts key key, eq_refl key) refl

  -- The user of a state token that is alive.
  abbrev pub Awaited : ℕ → Store → String → String → String → User → Type 0
  Awaited now st state code id u =
      (get_text now st.cache state ≡ some id)
      × (get st.users id ≡ some u)
      × (u.is_active ≡ true)
      × (verify_totp O S now (or_empty u.mfa_secret) code ≡ true)

  abbrev pub Completes : ℕ → Drawn → Store → String → String → Outcome → Store → Type 0
  Completes now r st state code a st' =
      ((id : String) × (u : User) × Awaited now st state code id u
        × Issued now r (record st { cache = delete st.cache state }) id u a st'
        × ((later : ℕ) → get_text later st'.cache state ≡ none))
      ⊎ (((a ≡ raised invalid_credentials)
            ⊎ (a ≡ raised (invalid_token "MFA session expired or invalid")))
          × (st' ≡ st)
          × ((id : String) (u : User) → id ≢ "" → ¬ Awaited now st state code id u))

  -- The second step of a login issues tokens to the user that waits behind a state token that is
  -- alive, if that user is active and the code verifies, and the state token is then used up; the
  -- commit fails only where the drawn token is not new. In all other cases it raises and changes
  -- nothing, and no user with an id waits whose code verifies.
  pub complete_mfa_login-Completes :
      (now : ℕ) (r : Drawn) (st : Store) (state code : String)
      → let (a, st') = complete_mfa_login O S now r st state code in
        Completes now r st state code a st'
  unfolding complete_mfa_login
  complete_mfa_login-Completes now r st state code =
      text (truthy (get_text now st.cache state)) refl
    where
      user :
          (id : String) (o : Option User)
          → get_text now st.cache state ≡ some id
          → get st.users id ≡ o
          → let (a, st') = second_step O S now r st state code id o in
            Completes now r st state code a st'
      user id none at there = inr (inl refl, refl, λ id' u' named h. ground (arith, at, there, h))
      user id (some u) at there =
          elim (Bool-cases (u.is_active && verify_totp O S now (or_empty u.mfa_secret) code)) [
            | inl e ↦
                let st1 = record st { cache = delete st.cache state } in
                let issued = issue_tokens-Issued now r st1 id u in
                rw (e) (
                  inl (
                    id,
                    u,
                    let (active, verified) = both u.is_active _ e in (at, there, active, verified),
                    issued,
                    λ later.
                        ap (λ (c : Cache). get_text later c state)
                          (Issued-cache now r st1 _ id u _ issued)
                        ∙ get_text-delete later st.cache state,
                  ))
            | inr e ↦
                rw (e) (inr (inl refl, refl, λ id' u' named h. ground (arith, at, there, h, e)))
          ]

      text :
          (o : Option String)
          → truthy (get_text now st.cache state) ≡ o
          → let (a, st') = mfa_user O S now r st state code o in Completes now r st state code a st'
      text none at =
          inr (inr refl, refl, λ id u named h. ground (arith, at, h.0, named, eq_iff id ""))
      text (some id) at = user id (get st.users id) (truthy-some _ id at) refl

  -- The user that a login by password finds.
  abbrev pub Known : Store → String → String → String → User → Type 0
  Known st email password id u =
      (get st.users id ≡ some u)
      × (u.email ≡ email)
      × (u.is_active ≡ true)
      × (O.checkpw password u.password_hash ≡ true)

  abbrev pub Admits : ℕ → Drawn → Store → String → String → Outcome → Store → Type 0
  Admits now r st email password (raised e) st' =
      (st'.users ≡ st.users) × (st'.refresh_tokens ≡ st.refresh_tokens)
  Admits now r st email password (mfa_required s) st' =
      (id : String) × (u : User) × Known st email password id u
      × (u.mfa_enabled ≡ true)
      × (s ≡ r.state_token)
      × (st'.refresh_tokens ≡ st.refresh_tokens)
      × ((later : ℕ) → later < now + 300 → get_text later st'.cache s ≡ some id)
  Admits now r st email password (tokens p) st' =
      (id : String) × (u : User) × Known st email password id u
      × (u.mfa_enabled ≡ false)
      × (p ≡ pair O S now r id u)
      × (get st'.refresh_tokens (O.sha256 r.refresh_token) ≡ some (new_token O S now id u))

  get_text-set :
      (now later : ℕ) (c : Cache) (key value : String)
      → later < now + 300
      → get_text later (set now c key value 300) key ≡ some value
  unfolding get_text set
  get_text-set now later c key value soon =
      rw (get-put_same c.texts key (value, now + 300), lt→ltb later (now + 300) soon) refl

  Issued-Admits :
      (now : ℕ) (r : Drawn) (st st' : Store) (email password id : String) (u : User) (a : Outcome)
      → Known st email password id u
      → u.mfa_enabled ≡ false
      → Issued now r st id u a st'
      → Admits now r st email password a st'
  Issued-Admits now r st st' email password id u (raised e) known plain h =
      (ap (λ (s : Store). s.users) h.2, ap (λ (s : Store). s.refresh_tokens) h.2)
  Issued-Admits now r st st' email password id u (mfa_required s) known plain h = absurd h
  Issued-Admits now r st st' email password id u (tokens p) known plain (p_is, new, st_is) = (
    id,
    u,
    known,
    plain,
    p_is,
    ap (λ (s : Store). get s.refresh_tokens (O.sha256 r.refresh_token)) st_is
        ∙ get-put_same st.refresh_tokens (O.sha256 r.refresh_token) (new_token O S now id u),
  )

  admit-Admits :
      (now : ℕ) (r : Drawn) (st : Store) (email password : String) (o : Option (String × User))
      → ((id : String) (u : User)
          → o ≡ some (id, u)
          → (get st.users id ≡ some u) × ((u.email == email) ≡ true))
      → let (a, st') = admit O S now r st password o in Admits now r st email password a st'
  admit-Admits now r st email password none h = (refl, refl)
  admit-Admits now r st email password (some (id, u)) h =
      elim (Bool-cases (u.is_active && O.checkpw password u.password_hash)) [
        | inr e ↦ rw (e) (refl, refl)
        | inl e ↦
            let (active, checked) = both u.is_active _ e in
            let (at, named) = h id u refl in
            let known : Known st email password id u =
              (at, eq_true u.email email named, active, checked) in
            elim (Bool-cases u.mfa_enabled) [
              | inl k ↦
                  rw (e, k)
                    (
                      id,
                      u,
                      known,
                      k,
                      refl,
                      refl,
                      λ later soon. get_text-set now later st.cache r.state_token id soon,
                    )
              | inr k ↦
                  simp (e, k)
                    (Issued-Admits now r st _ email password id u _ known k
                      (issue_tokens-Issued now r st id u))
            ]
      ]

  -- In a table where ids are unique, a login gives tokens only to an active user with that email and
  -- password who has no second factor, and stores the drawn refresh token for that user. With a second
  -- factor it gives the drawn state token instead, which stands for the user for 300 seconds. Where it
  -- raises, users and refresh tokens stay.
  pub login-Admits :
      (now : ℕ) (r : Drawn) (st : Store) (email password ip : String)
      → IsDict st.users
      → let (a, st') = login O S now r st email password ip in Admits now r st email password a st'
  unfolding login check_rate_limit
  login-Admits now r st email password ip rows =
      let (allowed, current, cache) = check_rate_limit now st.cache ip 60 5 in
      let counted = record st { cache = cache } in
      let found = find_row (λ u. u.email == email) st.users in
      let admitted =
        admit-Admits now r counted email password found
          (λ id u. find_row-some (λ u. u.email == email) st.users id u rows) in
      elim (Bool-cases allowed) [ inl e ↦ rw (e) admitted | inr e ↦ rw (e) (refl, refl) ]
