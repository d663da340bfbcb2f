-- ===== src/Auth.antt =====
-- backend/models/user.py, backend/models/refresh_token.py: the rows of a login, and what
-- backend/services/auth_service.py answers. Times are in seconds. The name of a user, what a refresh
-- token keeps of the client, and the dates of rows are left out.
pub mod CacheService
pub mod Service
mod Rotation
mod Once
pub mod Access
mod Throttle
mod Answers
mod Tests
use sphere_platform.Base.{ℕ, ◌*◌, String, Bool, Option}
use sphere_platform.Base.Dict.{Dict}
use sphere_platform.Auth.CacheService.{Cache}

pub record User : Type 0 where
  pub org_id : String
  pub email : String
  pub password_hash : String
  pub role : String
  pub is_active : Bool
  pub mfa_enabled : Bool
  pub mfa_secret : Option String
  pub last_login_at : Option ℕ

pub record RefreshToken : Type 0 where
  pub org_id : String
  pub user_id : String
  pub expires_at : ℕ
  pub revoked : Bool
  pub revoked_at : Option ℕ

-- Users by their id, refresh tokens by the unique hash of their text.
pub record Store : Type 0 where
  pub users : Dict User
  pub refresh_tokens : Dict RefreshToken
  pub cache : Cache

-- The payload of an access token.
pub record Claims : Type 0 where
  pub sub : String
  pub org_id : String
  pub role : String
  pub jti : String
  pub kind : String
  pub iat : ℕ
  pub exp : ℕ

pub record Settings : Type 0 where
  pub jwt_access_token_expire_minutes : ℕ
  pub jwt_refresh_token_expire_days : ℕ

-- hashlib, bcrypt, pyotp at a time, and jwt with the key of the settings.
pub record Outside : Type 0 where
  pub sha256 : String → String
  pub checkpw : String → String → Bool
  pub totp : ℕ → String → String → Bool
  pub encode : Claims → String

-- What a call draws at random.
pub record Drawn : Type 0 where
  pub jti : String
  pub refresh_token : String
  pub state_token : String

pub record TokenPair : Type 0 where
  pub access_token : String
  pub expires_in : ℕ
  pub refresh_token : String
  pub user_id : String

-- The exceptions of core/exceptions.py, and that of the database where a hash is not unique.
pub data Raised : Type 0 where
  too_many_attempts : Raised
  invalid_credentials : Raised
  invalid_token : String → Raised
  integrity_error : Raised

pub data Outcome : Type 0 where
  raised : Raised → Outcome
  mfa_required : String → Outcome
  tokens : TokenPair → Outcome
