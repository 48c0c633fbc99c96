-- ===== src/Admin.antt =====
-- The pages of administrators under provena-web/src/app/admin.
pub mod Products
pub mod Banners
pub mod Disputes
pub mod Discounts
