-- ===== src/Auth.antt =====
-- The rows of backend/prisma/schema.prisma that backend/src/auth/auth.service.ts reads and writes,
-- and its keys in Redis.
--
-- Phones, one-time passwords and identifiers are only compared, so numbers stand for them; a time is
-- in seconds. Rows stand in the order of their creation. The signed tokens stand by what they are
-- signed from; the hash of a refresh token is left out, since nothing reads it, and so is the expiry
-- of a session key, which comes when the token that it names has expired too.
pub mod Otps
pub mod Tokens
pub mod Accounts
pub mod Guessing
pub mod Limits
pub mod Rotation
use Prim.Native.String.{String}
use biz_saathi.Prelude.{ℕ, Bool, Option, List}
use biz_saathi.Records.{Tenant}

-- `enum UserRole`.
pub data UserRole : Type 0 where
  owner admin staff accountant : UserRole

pub record User : Type 0 where
  pub id : ℕ
  pub tenant_id : ℕ
  pub phone : ℕ
  pub name : Option String
  pub email : Option String
  pub avatar_url : Option String
  pub role : UserRole
  pub last_login_at : Option ℕ

pub record OtpVerification : Type 0 where
  pub id : ℕ
  pub phone : ℕ
  pub otp : ℕ
  pub expires_at : ℕ
  pub attempts : ℕ
  pub verified : Bool

pub record RefreshToken : Type 0 where
  pub id : ℕ
  pub user_id : ℕ
  pub expires_at : ℕ
  pub is_revoked : Bool

-- A key `otp_rate_limit:<phone>`, with the time at which it expires, if it does.
pub record RateLimit : Type 0 where
  pub phone : ℕ
  pub attempts : ℕ
  pub expires : Option ℕ

pub data AuthJob : Type 0 where
  send_otp_whatsapp : (phone otp expiry_minutes : ℕ) → AuthJob
  send_otp_email : (phone : ℕ) (email : String) (otp expiry_minutes : ℕ) → AuthJob

-- `sessions` holds the keys `session:<user>` with the refresh token that each names.
pub record AuthDb : Type 0 where
  pub tenants : List Tenant
  pub users : List User
  pub otps : List OtpVerification
  pub refresh_tokens : List RefreshToken
  pub rate_limits : List RateLimit
  pub sessions : List (ℕ × ℕ)
  pub jobs : List AuthJob
