-- ===== src/Types/Order.antt =====
-- provena-web/src/lib/api/types.ts, the sections on the cart, on orders, their disputes and returns,
-- and on discounts. Amounts are texts, as in the source.
use provena.Base.{ℕ, String, Bool, Option, List}

pub record CartItem : Type 0 where
  pub id : String
  pub variant : String
  pub variant_sku : String
  pub variant_name : String
  pub product_name : String
  pub price : String
  pub quantity : ℕ
  pub subtotal : String
  pub reservation_expires_at : Option String
  pub added_at : String
  pub updated_at : String

pub record Cart : Type 0 where
  pub id : Option String
  pub items : List CartItem
  pub total : String
  pub item_count : ℕ
  pub updated_at : Option String

pub data OrderStatus : Type 0 where
  pending confirmed dispatched delivered cancelled : OrderStatus

pub data DisputeStatus : Type 0 where
  opened respondent_replied escalated resolving resolved rejected closed : DisputeStatus

pub data ReturnStatus : Type 0 where
  requested approved refunding rejected refunded : ReturnStatus

pub record ReturnItem : Type 0 where
  pub id : String
  pub order_item_id : String
  pub sku : String
  pub product_name : String
  pub quantity : ℕ

pub record OrderReturn : Type 0 where
  pub id : String
  pub sub_order_id : String
  pub order_reference : String
  pub supplier_name : String
  pub reason : String
  pub status : ReturnStatus
  pub supplier_notes : String
  pub refund_amount : Option String
  pub items : List ReturnItem
  pub raised_by_email : Option String
  pub created_at : String
  pub updated_at : String

pub record OrderDispute : Type 0 where
  pub id : String
  pub sub_order_id : String
  pub reason : String
  pub status : DisputeStatus
  pub resolution : String
  pub raised_by_email : Option String
  pub created_at : String
  pub updated_at : String

pub data ReturnPolicy : Type 0 where
  returnable defective_only sealed : ReturnPolicy

pub record OrderItem : Type 0 where
  pub id : String
  pub product_name : String
  pub variant_name : String
  pub sku : String
  pub quantity : ℕ
  pub unit_price : String
  pub total_price : String
  pub return_policy : ReturnPolicy
  pub is_returnable : Bool

pub data FulfilmentMode : Type 0 where
  supplier_ship platform_delivery : FulfilmentMode

pub data CourierStatus : Type 0 where
  quoted booked en_route delivered failed cancelled : CourierStatus

pub record CourierDelivery : Type 0 where
  pub status : CourierStatus
  pub tracking_url : String

pub record SubOrder : Type 0 where
  pub id : String
  pub supplier_name : String
  pub supplier_slug : String
  pub supplier_vat_number : String
  pub status : OrderStatus
  pub goods_subtotal : String
  pub discount_amount : String
  pub shipping_amount : String
  pub vat_amount : String
  pub subtotal : String
  pub fulfilment_mode : FulfilmentMode
  pub tracking_number : String
  pub delivered_at : Option String
  pub courier : Option CourierDelivery
  pub items : List OrderItem
  pub disputes : List OrderDispute
  pub returns : List OrderReturn
  pub created_at : String
  pub updated_at : String

pub record SubOrderListItem : Type 0 where
  pub id : String
  pub order_reference : String
  pub buyer_email : String
  pub supplier_name : String
  pub status : OrderStatus
  pub subtotal : String
  pub tracking_number : String
  pub created_at : String

pub record Order : Type 0 where
  pub id : String
  pub reference : String
  pub status : OrderStatus
  pub buyer_email : String
  pub shipping_name : String
  pub shipping_line1 : String
  pub shipping_line2 : String
  pub shipping_city : String
  pub shipping_postcode : String
  pub shipping_country : String
  pub goods_subtotal : String
  pub discount_amount : String
  pub discount_code : String
  pub shipping_amount : String
  pub vat_amount : String
  pub total_amount : String
  pub notes : String
  pub payment_id : Option String
  pub payment_status : Option String
  pub refunded_amount : Option String
  pub sub_orders : List SubOrder
  pub created_at : String
  pub updated_at : String

pub record DiscountValidateResult : Type 0 where
  pub valid : Bool
  pub code : Option String
  pub discount_amount : Option String
  pub new_total : Option String
  pub reason : Option String
