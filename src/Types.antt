-- ===== src/Types.antt =====
-- provena-web/src/lib/api/types.ts: the shapes of the API's answers. A text field is a `String`, a
-- field that may be `null` is an `Option`, a count is a native number.
pub mod Auth
pub mod Order
pub mod Address
pub mod Catalogue
pub mod Stock
pub mod Notice
pub mod Supplier
