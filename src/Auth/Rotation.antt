-- ===== src/Auth/Rotation.antt =====
-- backend/services/auth_service.py: a refresh token is used once.
use sphere_platform.Base.{
  ℕ, ◌≤◌, String, true, false, Option, none, some, ◌==◌, ◌≡◌, ◌≢◌, ◌⊎◌, inl, inr, refl, sym, ap,
  ◌∙◌, arith, eq_iff, eq_refl, Bool-cases, ltb,
}
use sphere_platform.Base.Dict.{get, put, get-put, get-put_same}
use sphere_platform.Base.Dict.Rows.{get-put_other}
use sphere_platform.Base.Dict.Size.{is_some}
use sphere_platform.Auth.{
  User, RefreshToken, Store, Settings, Outside, Drawn, Outcome, raised, mfa_required, tokens,
}
use sphere_platform.Auth.Service.{
  insert, revoke, new_token, pair, committed, rotate, refresh_row, refresh,
}

module _ (O : Outside) (S : Settings) where
  -- The row of a text and its user allow a refresh.
  abbrev pub Refreshable : ℕ → Store → String → RefreshToken → User → Type 0
  Refreshable now st raw t u =
      (get st.refresh_tokens (O.sha256 raw) ≡ some t)
      × (t.revoked ≡ false)
      × (now ≤ t.expires_at)
      × (get st.users t.user_id ≡ some u)
      × (u.is_active ≡ true)

  -- What a refresh answers and leaves.
  abbrev pub Rotates : ℕ → Drawn → Store → String → Outcome → Store → Type 0
  Rotates now r st raw (raised e) st' =
      (st' ≡ st)
      × (((t : RefreshToken) (u : User) → ¬ Refreshable now st raw t u)
          ⊎ (O.sha256 r.refresh_token ≡ O.sha256 raw)
          ⊎ (is_some (get st.refresh_tokens (O.sha256 r.refresh_token)) ≡ true))
  Rotates now r st raw (mfa_required s) st' = ⊥
  Rotates now r st raw (tokens p) st' =
      (t : RefreshToken) × (u : User) × Refreshable now st raw t u
      × (p ≡ pair O S now r t.user_id u)
      × (get st'.refresh_tokens (O.sha256 raw) ≡ some (revoke now t))
      × (get st'.refresh_tokens (O.sha256 r.refresh_token) ≡ some (new_token O S now t.user_id u))
      × ((k : String)
          → k ≢ O.sha256 raw
          → k ≢ O.sha256 r.refresh_token
          → get st'.refresh_tokens k ≡ get st.refresh_tokens k)
      × (st'.users ≡ st.users)

  -- The commit of a refresh: refused where the drawn token is not new.
  committed-Rotates :
      (now : ℕ) (r : Drawn) (st : Store) (raw : String) (t : RefreshToken) (u : User)
      → Refreshable now st raw t u
      → let (a, st') = committed O S st (pair O S now r t.user_id u) st.users (
          insert
            (put st.refresh_tokens (O.sha256 raw) (revoke now t))
            (O.sha256 r.refresh_token)
            (new_token O S now t.user_id u)) in
        Rotates now r st raw a st'
  committed-Rotates now r st raw t u ready =
      let h = O.sha256 raw in
      let h' = O.sha256 r.refresh_token in
      let d = put st.refresh_tokens h (revoke now t) in
      let n = new_token O S now t.user_id u in
      let at = get-put st.refresh_tokens h h' (revoke now t) in
      elim (Bool-cases (is_some (get d h'))) [
        | inl taken ↦ rw (taken) (
          refl,
          inr (elim (Bool-cases (h == h')) [
            | inl e ↦ inl (ground (arith, e, eq_iff h h'))
            | inr e ↦ inr (sym (ap is_some (at ∙ rw e refl)) ∙ taken)
          ]),
        )
        | inr new ↦
            let apart : h' ≢ h = λ p. ground (arith, p, new, at, eq_refl h) in
            rw (new) (
              t,
              u,
              ready,
              refl,
              get-put_other d h' h n apart ∙ get-put_same st.refresh_tokens h (revoke now t),
              get-put_same d h' n,
              (λ k k_raw k_new.
                  get-put_other d h' k n (λ p. k_new (sym p))
                  ∙ get-put_other st.refresh_tokens h k (revoke now t) (λ p. k_raw (sym p))),
              refl,
            )
      ]

  rotate-Rotates :
      (now : ℕ) (r : Drawn) (st : Store) (raw : String) (t : RefreshToken) (o : Option User)
      → get st.refresh_tokens (O.sha256 raw) ≡ some t
      → t.revoked ≡ false
      → ltb t.expires_at now ≡ false
      → get st.users t.user_id ≡ o
      → let (a, st') = rotate O S now r st (O.sha256 raw) t o in Rotates now r st raw a st'
  rotate-Rotates now r st raw t none at fresh timely user =
      (refl, inl (λ t' u' h. ground (arith, at, h, user)))
  rotate-Rotates now r st raw t (some u) at fresh timely user = elim (Bool-cases u.is_active) [
    | inl e ↦
        rw (e) (committed-Rotates now r st raw t u (at, fresh, ground (arith, timely), user, e))
    | inr e ↦ rw (e) (refl, inl (λ t' u' h. ground (arith, at, h, user, e)))
  ]

  -- A refresh renews exactly the token that is known, not revoked, not expired and of an active user:
  -- it revokes that token, stores the drawn one for the same user, and leaves the other tokens and
  -- the users. In all other cases, and where the drawn token is not new, it raises and changes nothing.
  pub refresh-Rotates :
      (now : ℕ) (r : Drawn) (st : Store) (raw : String)
      → let (a, st') = refresh O S now r st raw in Rotates now r st raw a st'
  unfolding refresh
  refresh-Rotates now r st raw = row (get st.refresh_tokens (O.sha256 raw)) refl
    where
      row :
          (o : Option RefreshToken)
          → get st.refresh_tokens (O.sha256 raw) ≡ o
          → let (a, st') = refresh_row O S now r st (O.sha256 raw) o in Rotates now r st raw a st'
      row none at = (refl, inl (λ t u h. ground (arith, at, h.0)))
      row (some t) at = elim (Bool-cases t.revoked) [
        | inl e ↦ rw (e) (refl, inl (λ t' u' h. ground (arith, at, h, e)))
        | inr e ↦ elim (Bool-cases (ltb t.expires_at now)) [
          | inl k ↦ rw (e, k) (refl, inl (λ t' u' h. ground (arith, at, h, k)))
          | inr k ↦ rw (e, k) (rotate-Rotates now r st raw t (get st.users t.user_id) at e k refl)
        ]
      ]
