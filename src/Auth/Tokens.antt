-- ===== src/Auth/Tokens.antt =====
-- `generateTokens`, `refreshToken`, `logout` and `verifyOtp` of auth.service.ts.
use Prim.Native.String.{String}
use biz_saathi.Prelude.{
  ℕ, ◌+◌, ◌*◌, Bool, true, false, ◌||◌, Option, none, some, List, [], ◌∷◌, ◌++◌, ltb, ◌==◌,
  if◌then◌else◌,
}
use biz_saathi.Action.{
  Action, unauthorized, not_found, pure, gets, or_throw, throw_if, modify, ◌>>=◌, ◌>>◌,
}
use biz_saathi.Table.{find_first, update_where}
use biz_saathi.Records.{Tenant}
use biz_saathi.Auth.{UserRole, User, RefreshToken, AuthDb}
use biz_saathi.Auth.Otps.{OtpConfig, check_otp}

-- What the two tokens are signed from.
pub record AccessToken : Type 0 where
  pub sub : ℕ
  pub tenant_id : ℕ
  pub role : UserRole
  pub phone : ℕ

pub record SignedRefresh : Type 0 where
  pub sub : ℕ
  pub token_id : ℕ

pub record TokenPair : Type 0 where
  pub access_token : AccessToken
  pub refresh_token : SignedRefresh

pub record Login : Type 0 where
  pub tokens : TokenPair
  pub user : User
  pub is_new_user : Bool

-- The keys `session:<user>`: the newest value of a key comes first.
abbrev pub session_of : ℕ → List (ℕ × ℕ) → Option ℕ
session_of user [] = none
session_of user ((u, t) ∷ rest) = if u == user then some t else session_of user rest

abbrev pub without_session : ℕ → List (ℕ × ℕ) → List (ℕ × ℕ)
without_session user [] = []
without_session user ((u, t) ∷ rest) =
    let others = without_session user rest in if u == user then others else (u, t) ∷ others

-- Seven days.
abbrev pub refresh_seconds : ℕ
refresh_seconds = 7 * 24 * 60 * 60

abbrev pub new_token : (now token_id user_id : ℕ) → RefreshToken
new_token now token_id user_id = record {
  id = token_id;
  user_id = user_id;
  expires_at = now + refresh_seconds;
  is_revoked = false;
}

-- `generateTokens`; the database chooses the id of the new row.
unfoldable pub generate_tokens : (now token_id : ℕ) → User → Action AuthDb TokenPair
generate_tokens now token_id user = do
  modify (λ db. record db {
    refresh_tokens = db.refresh_tokens ++ new_token now token_id user.id ∷ [];
  })
  modify (λ db. record db { sessions = (user.id, token_id) ∷ without_session user.id db.sessions })
  pure (record {
    access_token = record {
      sub = user.id;
      tenant_id = user.tenant_id;
      role = user.role;
      phone = user.phone;
    };
    refresh_token = record { sub = user.id; token_id = token_id };
  })

abbrev pub has_token : ℕ → RefreshToken → Bool
has_token id t = t.id == id

abbrev pub revoked : RefreshToken → RefreshToken
revoked t = record t { is_revoked = true }

unfoldable pub revoke : ℕ → Action AuthDb (Unit {0})
revoke id =
    modify
      (λ db. record db { refresh_tokens = update_where (has_token id) revoked db.refresh_tokens })

-- `refreshToken`. The user of a token exists: it is a foreign key.
unfoldable pub refresh_token : (now new_id token_id : ℕ) → Action AuthDb TokenPair
refresh_token now new_id token_id = do
  found ← gets (λ db. find_first (has_token token_id) db.refresh_tokens)
  t ← or_throw found (unauthorized "Invalid or expired refresh token")
  throw_if (t.is_revoked || ltb t.expires_at now) (unauthorized "Invalid or expired refresh token")
  revoke token_id
  owner ← gets (λ db. find_first (λ (u : User). u.id == t.user_id) db.users)
  user ← or_throw owner (not_found "User not found")
  generate_tokens now new_id user

-- `logout`: the token that the session names is revoked.
abbrev pub close_session : Option ℕ → (user : ℕ) → Action AuthDb (Unit {0})
close_session none user = pure tt
close_session (some token) user =
    revoke token >> modify (λ db. record db { sessions = without_session user db.sessions })

unfoldable pub logout : (user : ℕ) → Action AuthDb (Unit {0})
logout user = do session ← gets (λ db. session_of user db.sessions); close_session session user

-- The ids and texts that `verifyOtp` takes from their generators.
pub record Fresh : Type 0 where
  pub tenant_id : ℕ
  pub user_id : ℕ
  pub token_id : ℕ
  pub tenant_name : String

-- A user who logs in for the first time, as the owner of a new business.
abbrev pub first_user : Fresh → (phone : ℕ) → User
first_user fresh phone = record {
  id = fresh.user_id;
  tenant_id = fresh.tenant_id;
  phone = phone;
  name = none;
  email = none;
  avatar_url = none;
  role = UserRole.owner;
  last_login_at = none;
}

abbrev pub first_tenant : Fresh → Tenant
first_tenant fresh = record {
  id = fresh.tenant_id;
  name = fresh.tenant_name;
  gst_number = none;
  address = none;
}

abbrev pub sign_in : (now : ℕ) → Fresh → (phone : ℕ) → Option User → Action AuthDb (User × Bool)
sign_in now fresh phone none = do
  modify (λ db. record db {
    tenants = db.tenants ++ first_tenant fresh ∷ [];
    users = db.users ++ first_user fresh phone ∷ [];
  })
  pure (first_user fresh phone, true)
sign_in now fresh phone (some u) = do
  modify (λ db. record db {
    users =
        update_where (λ (x : User). x.id == u.id) (λ x. record x { last_login_at = some now })
          db.users;
  })
  pure (u, false)

-- `verifyOtp`.
unfoldable pub verify_otp : OtpConfig → (now : ℕ) → Fresh → (phone otp : ℕ) → Action AuthDb Login
verify_otp config now fresh phone otp = do
  check_otp config now phone otp
  known ← gets (λ db. find_first (λ (u : User). u.phone == phone) db.users)
  signed ← sign_in now fresh phone known
  tokens ← generate_tokens now fresh.token_id signed.0
  pure (record { tokens = tokens; user = signed.0; is_new_user = signed.1 })
