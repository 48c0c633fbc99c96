-- ===== src/Types/Auth.antt =====
-- provena-web/src/lib/api/types.ts, the section on signing in.
use provena.Base.{String, Bool}

pub data UserRole : Type 0 where
  buyer supplier admin : UserRole

-- The text that stands for a role.
unfoldable pub role_text : UserRole → String
role_text buyer = "BUYER"
role_text supplier = "SUPPLIER"
role_text admin = "ADMIN"

pub record UserProfile : Type 0 where
  pub id : String
  pub email : String
  pub first_name : String
  pub last_name : String
  pub role : UserRole
  pub totp_enabled : Bool
  pub created_at : String

pub record LoginResponse : Type 0 where
  pub access : String
  pub user : UserProfile

pub record TotpLoginRequired : Type 0 where
  pub totp_session_token : String
