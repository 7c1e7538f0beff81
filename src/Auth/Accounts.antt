-- ===== src/Auth/Accounts.antt =====
-- `setupBusiness`, `updateProfile` and `getProfile` of auth.service.ts.
use Prim.Native.String.{String}
use biz_saathi.Prelude.{ℕ, Option, some, ◌==◌}
use biz_saathi.Action.{Action, not_found, pure, gets, or_throw, modify, ◌>>=◌, ◌>>◌}
use biz_saathi.Table.{find_first, update_where}
use biz_saathi.Records.{Tenant}
use biz_saathi.Invoice.{or_keep}
use biz_saathi.Auth.{User, AuthDb}

-- dto/business-setup.dto.ts.
pub record BusinessSetupDto : Type 0 where
  pub business_name : String
  pub gst_number : Option String
  pub address : String
  pub city : String
  pub state : String

-- dto/update-profile.dto.ts.
pub record UpdateProfileDto : Type 0 where
  pub name : Option String
  pub email : Option String
  pub avatar_url : Option String

abbrev pub append : String → String → String
append String.[] t = t
append (String.◌∷◌ c s) t = String.◌∷◌ c (append s t)

-- `${address}, ${city}, ${state}`.
abbrev pub full_address : BusinessSetupDto → String
full_address dto = append dto.address (append ", " (append dto.city (append ", " dto.state)))

abbrev pub set_up : BusinessSetupDto → Tenant → Tenant
set_up dto t = record t {
  name = dto.business_name;
  gst_number = or_keep dto.gst_number t.gst_number;
  address = some (full_address dto);
}

-- `setupBusiness`, which fails where the tenant is missing.
unfoldable pub setup_business : (tenant : ℕ) → BusinessSetupDto → Action AuthDb Tenant
setup_business tenant dto = do
  found ← gets (λ db. find_first (λ (t : Tenant). t.id == tenant) db.tenants)
  t ← or_throw found (not_found "Record to update not found")
  modify (λ db. record db {
    tenants = update_where (λ (x : Tenant). x.id == tenant) (set_up dto) db.tenants;
  })
  pure (set_up dto t)

abbrev pub with_profile : UpdateProfileDto → User → User
with_profile dto u = record u {
  name = or_keep dto.name u.name;
  email = or_keep dto.email u.email;
  avatar_url = or_keep dto.avatar_url u.avatar_url;
}

-- `updateProfile`.
unfoldable pub update_profile : (user : ℕ) → UpdateProfileDto → Action AuthDb User
update_profile user dto = do
  found ← gets (λ db. find_first (λ (u : User). u.id == user) db.users)
  u ← or_throw found (not_found "Record to update not found")
  modify (λ db. record db {
    users = update_where (λ (x : User). x.id == user) (with_profile dto) db.users;
  })
  pure (with_profile dto u)

-- `getProfile`.
unfoldable pub get_profile : (user tenant : ℕ) → Action AuthDb (Option User × Option Tenant)
get_profile user tenant = do
  u ← gets (λ db. find_first (λ (x : User). x.id == user) db.users)
  t ← gets (λ db. find_first (λ (x : Tenant). x.id == tenant) db.tenants)
  pure (u, t)
