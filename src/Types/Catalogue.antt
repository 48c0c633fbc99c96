-- ===== src/Types/Catalogue.antt =====
-- provena-web/src/lib/api/types.ts, the sections on the catalogue, reviews, pages of results and the
-- wishlist. Decimal numbers are texts.
use provena.Base.{ℕ, String, Bool, Option, List}
use provena.Types.Order.{ReturnPolicy}

-- A category holds its subcategories, a list of their own.
mutual
  pub data Category : Type 0 where
    category :
        (id name slug description : String) (image_url parent_slug : Option String)
        (children : Categories) (position : ℕ) (is_active : Bool) (product_count : ℕ)
        → Category

  pub data Categories : Type 0 where
    no_categories : Categories
    and_category : Category → Categories → Categories

pub record ProductVariant : Type 0 where
  pub id : String
  pub name : String
  pub sku : String
  pub price : String
  pub compare_at_price : Option String
  pub weight_grams : ℕ
  pub is_active : Bool
  pub on_sale : Bool
  pub discount_percent : Option String

pub record ProductImage : Type 0 where
  pub id : String
  pub url : String
  pub alt_text : String
  pub position : ℕ
  pub is_primary : Bool

pub data ProductStatus : Type 0 where
  active draft archived : ProductStatus

pub record Product : Type 0 where
  pub id : String
  pub name : String
  pub slug : String
  pub description : String
  pub status : ProductStatus
  pub is_featured : Bool
  pub supplier_slug : String
  pub supplier_name : String
  pub category_slug : Option String
  pub category_name : Option String
  pub effective_return_policy : ReturnPolicy
  pub variants : List ProductVariant
  pub images : List ProductImage
  pub average_rating : Option String
  pub review_count : ℕ
  pub created_at : String
  pub updated_at : String

pub record Review : Type 0 where
  pub id : String
  pub variant : String
  pub variant_sku : String
  pub reviewer_email : Option String
  pub rating : ℕ
  pub title : String
  pub body : String
  pub is_verified_purchase : Bool
  pub is_approved : Bool
  pub created_at : String
  pub updated_at : String

pub record PaginatedResponse {ℓ} (T : Type ℓ) : Type ℓ where
  pub count : ℕ
  pub next : Option String
  pub previous : Option String
  pub results : List T

pub record WishlistItem : Type 0 where
  pub id : String
  pub variant : String
  pub variant_sku : String
  pub variant_name : String
  pub product_name : String
  pub price : String
  pub is_active : Bool
  pub added_at : String
