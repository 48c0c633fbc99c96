-- ===== src/Orders.antt =====
-- The page of one order: provena-web/src/app/orders/[reference]/page.tsx.
pub mod Card
pub mod Forms
pub mod Page
pub mod Labels
