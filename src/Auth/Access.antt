-- ===== src/Auth/Access.antt =====
-- backend/core/dependencies.py: `get_current_user`, and what a logout means for an access token.
use sphere_platform.Base.{
  ℕ, ◌+◌, ◌-◌, ◌<◌, ◌≤◌, String, Bool, true, false, Option, none, some, ◌≡◌, inl, inr,
  if◌then◌else◌, refl, ap, subst, ◌∙◌, arith, ltb, lt→ltb, Bool-cases, truthy,
}
use sphere_platform.Base.Dict.{get, get-put_same}
use sphere_platform.Base.Dict.Find.{find_row}
use sphere_platform.Base.Dict.Size.{is_some}
use sphere_platform.Tasks.Service.{Reply, ok, http_error}
use sphere_platform.Auth.{User, RefreshToken, Store, Claims, Settings, Outside}
use sphere_platform.Auth.CacheService.{Cache, blacklist_token, is_token_blacklisted, alive}
use sphere_platform.Auth.Service.{logout, revoke_given, revoke_row}

-- What jwt.decode gives at a time, or the exception it raises.
pub data Decoded : Type 0 where
  payload : Claims → Decoded
  expired_signature : Decoded
  invalid_signature : Decoded

module _ (decode : ℕ → String → Decoded) where
  abbrev pub active_user : Option User → Reply User
  active_user none = http_error 401
  active_user (some u) = if u.is_active then ok u else http_error 401

  abbrev pub checked : ℕ → Store → Decoded → Reply User
  checked now st expired_signature = http_error 401
  checked now st invalid_signature = http_error 401
  checked now st (payload c) =
      if is_token_blacklisted now st.cache c.jti
      then http_error 401
      else active_user (get st.users c.sub)

  abbrev pub of_bearer : ℕ → Store → Option String → Reply User
  of_bearer now st none = http_error 401
  of_bearer now st (some token) = checked now st (decode now token)

  -- With DEV_SKIP_AUTH the first active user, if there is one.
  unfoldable pub get_current_user : ℕ → Store → Bool → Option String → Reply User
  get_current_user now st dev_skip_auth credentials =
      if dev_skip_auth
      then elim (find_row (λ u. u.is_active) st.users) [
        | some (id, u) ↦ ok u
        | none ↦ of_bearer now st credentials
      ]
      else of_bearer now st credentials

  module _ (O : Outside) (S : Settings) where
    revoke_row-cache :
        (now : ℕ) (st : Store) (h : String) (o : Option RefreshToken)
        → (revoke_row O S now st h o).cache ≡ st.cache
    revoke_row-cache now st h none = refl
    revoke_row-cache now st h (some t) = elim (Bool-cases t.revoked) [
      | inl e ↦ rw (e) refl
      | inr e ↦ rw (e) refl
    ]

    revoke_given-cache :
        (now : ℕ) (st : Store) (o : Option String) → (revoke_given O S now st o).cache ≡ st.cache
    revoke_given-cache now st none = refl
    revoke_given-cache now st (some raw) = revoke_row-cache now st (O.sha256 raw) _

    -- The blacklist has the token until it expires.
    logout-blacklists :
        (now later : ℕ) (st : Store) (jti : String) (token_exp : ℕ) (raw : Option String)
        → now ≤ later
        → later < token_exp
        → is_token_blacklisted later (logout O S now st jti token_exp raw).cache jti ≡ true
    unfolding logout is_token_blacklisted blacklist_token
    logout-blacklists now later st jti token_exp raw after before =
        let e : ltb 0 (token_exp - now) ≡ true = ground (arith, after, before) in
        let until : now + (token_exp - now) ≡ token_exp = ground (arith, after, before) in
        rw (e) (
          ap (λ (c : Cache). is_some (alive later (get c.blacklist jti)))
            (revoke_given-cache now _ (truthy raw))
          ∙ rw
              (
                get-put_same st.cache.blacklist jti ("1", now + (token_exp - now)),
                until,
                lt→ltb later token_exp before,
              )
              refl)

    -- After a logout its access token is refused at every later time: by the blacklist until it
    -- expires, and then by jwt, which is taken to give one payload for a token, and only before the
    -- payload expires.
    pub get_current_user-logout :
        ((n : ℕ) (s : String) (c : Claims) → decode n s ≡ payload c → n < c.exp)
        → (token : String) (c : Claims)
        → ((n : ℕ) (c' : Claims) → decode n token ≡ payload c' → c' ≡ c)
        → (now later : ℕ) (st : Store) (refresh_token : Option String) → now ≤ later
        → get_current_user later (logout O S now st c.jti c.exp refresh_token) false (some token)
          ≡ http_error 401
    unfolding get_current_user
    get_current_user-logout timely token c one now later st raw after = go (decode later token) refl
      where
        go :
            (d : Decoded)
            → decode later token ≡ d
            → checked later (logout O S now st c.jti c.exp raw) d ≡ http_error 401
        go expired_signature e = refl
        go invalid_signature e = refl
        go (payload c') e =
            let same = one later c' e in
            let black =
              logout-blacklists now later st c.jti c.exp raw after
                (subst (λ (x : Claims). later < x.exp) same (timely later token c' e)) in
            rw (same, black) refl
