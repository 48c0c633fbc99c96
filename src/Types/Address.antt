-- ===== src/Types/Address.antt =====
-- provena-web/src/lib/api/addresses.ts: a saved address.
use provena.Base.{String, Bool}

pub record Address : Type 0 where
  pub id : String
  pub label : String
  pub full_name : String
  pub line1 : String
  pub line2 : String
  pub city : String
  pub postcode : String
  pub country : String
  pub is_default : Bool
  pub created_at : String
  pub updated_at : String
