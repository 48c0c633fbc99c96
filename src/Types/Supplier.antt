-- ===== src/Types/Supplier.antt =====
-- provena-web/src/lib/api/types.ts, the section on suppliers: what a buyer sees of one.
use provena.Base.{ℕ, String, Option}
use provena.Types.Order.{FulfilmentMode}

pub data ShippingPolicy : Type 0 where
  flat free_over_threshold per_item : ShippingPolicy

pub record SupplierAddress : Type 0 where
  pub line1 : String
  pub line2 : String
  pub city : String
  pub county : String
  pub postcode : String
  pub country : String

-- With the fields of `SupplierShipping`. The average is a decimal number, as a text.
pub record PublicSupplier : Type 0 where
  pub fulfilment_mode : FulfilmentMode
  pub platform_delivery_fee : String
  pub shipping_policy : ShippingPolicy
  pub shipping_flat_rate : String
  pub shipping_per_item_rate : String
  pub free_shipping_threshold : Option String
  pub id : String
  pub business_name : String
  pub slug : String
  pub description : String
  pub logo_url : String
  pub website : String
  pub address : Option SupplierAddress
  pub average_rating : Option String
  pub product_count : ℕ
