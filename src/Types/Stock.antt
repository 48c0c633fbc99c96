-- ===== src/Types/Stock.antt =====
-- provena-web/src/lib/api/types.ts, the section on the inventory.
use provena.Base.{ℕ, String, Bool, Option, ℤ}

pub record StockLevel : Type 0 where
  pub id : String
  pub variant_sku : String
  pub product_name : String
  pub quantity_available : ℕ
  pub quantity_reserved : ℕ
  pub quantity_on_hand : ℕ
  pub low_stock_threshold : ℕ
  pub is_low_stock : Bool
  pub updated_at : String

pub record StockLot : Type 0 where
  pub id : String
  pub lot_number : String
  pub quantity_received : ℕ
  pub quantity_remaining : ℕ
  pub received_at : String
  pub expires_at : Option String
  pub notes : String

pub record StockMovement : Type 0 where
  pub id : String
  pub movement_type : String
  pub movement_type_display : String
  pub quantity : ℤ
  pub quantity_after : ℕ
  pub reference : String
  pub notes : String
  pub performed_by_email : Option String
  pub created_at : String
