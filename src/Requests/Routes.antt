-- ===== src/Requests/Routes.antt =====
-- The routes of provena-api/apps/orders/urls.py, which provena-api/config/urls.py puts under
-- `orders/`: which view answers a path.
pub mod Reached
use Prim.Native.Char.{Char, code}
use Prim.Native.String.{[], ◌∷◌}
use provena.Base.{
  ℕ, String, Bool, true, false, ◌&&◌, not, Option, none, some, List, [], ◌∷◌, ◌==◌, nat_eq,
  string_eq, is_blank, if◌then◌else◌, ◌≡◌,
}

-- A path, split at its slashes.
abbrev push : Char → List String → List String
push c [] = (c ∷ []) ∷ []
push c (s ∷ ss) = (c ∷ s) ∷ ss

unfoldable pub segments : String → List String
segments [] = "" ∷ []
segments (c ∷ s) = let rest = segments s in if code c == 47 then "" ∷ rest else push c rest

-- A pattern: its literal segments, `<str:…>` and `<uuid:…>`.
pub data Piece : Type 0 where
  lit : String → Piece
  str uuid : Piece

module _ (is_uuid : String → Bool) where
  abbrev fits : Piece → String → Bool
  fits (lit text) s = text == s
  fits str s = not (is_blank s)
  fits uuid s = is_uuid s

  unfoldable pub matches : List Piece → List String → Bool
  matches [] [] = true
  matches [] (s ∷ ss) = false
  matches (p ∷ ps) [] = false
  matches (p ∷ ps) (s ∷ ss) = let rest = matches ps ss in rest && fits p s

  -- The first route that matches has the request.
  unfoldable pub first_match : List (List Piece × String) → List String → Option String
  first_match [] ss = none
  first_match ((pattern, view) ∷ routes) ss =
      let rest = first_match routes ss in if matches pattern ss then some view else rest

abbrev pub under_orders : List Piece → List Piece
under_orders pieces = lit "" ∷ lit "orders" ∷ pieces

-- `urlpatterns`, by the names of the routes.
abbrev pub order_routes : List (List Piece × String)
order_routes =
    (under_orders (lit "ws-ticket" ∷ lit "" ∷ []), "ws-ticket")
    ∷ (under_orders (lit "supplier" ∷ lit "" ∷ []), "supplier-suborder-list")
    ∷ (under_orders (lit "supplier" ∷ lit "returns" ∷ lit "" ∷ []), "supplier-return-list")
    ∷ (
      under_orders (lit "supplier" ∷ lit "returns" ∷ uuid ∷ lit "approve" ∷ lit "" ∷ []),
      "supplier-approve-return",
    )
    ∷ (
      under_orders (lit "supplier" ∷ lit "returns" ∷ uuid ∷ lit "reject" ∷ lit "" ∷ []),
      "supplier-reject-return",
    )
    ∷ (under_orders (lit "supplier" ∷ uuid ∷ lit "" ∷ []), "supplier-suborder-detail")
    ∷ (under_orders (lit "supplier" ∷ uuid ∷ lit "confirm" ∷ lit "" ∷ []), "supplier-confirm")
    ∷ (under_orders (lit "supplier" ∷ uuid ∷ lit "dispatch" ∷ lit "" ∷ []), "supplier-dispatch")
    ∷ (under_orders (lit "supplier" ∷ uuid ∷ lit "deliver" ∷ lit "" ∷ []), "supplier-deliver")
    ∷ (under_orders (lit "admin" ∷ lit "returns" ∷ lit "" ∷ []), "admin-return-list")
    ∷ (
      under_orders (lit "admin" ∷ lit "returns" ∷ uuid ∷ lit "refund" ∷ lit "" ∷ []),
      "admin-process-return-refund",
    )
    ∷ (under_orders (lit "admin" ∷ lit "" ∷ []), "admin-order-list")
    ∷ (
      under_orders (lit "admin" ∷ str ∷ lit "refund-items" ∷ lit "" ∷ []),
      "admin-refund-order-items",
    )
    ∷ (under_orders (lit "admin" ∷ str ∷ lit "" ∷ []), "admin-order-detail")
    ∷ (under_orders (lit "" ∷ []), "order-list-create")
    ∷ (under_orders (str ∷ lit "cancel" ∷ lit "" ∷ []), "order-cancel")
    ∷ (under_orders (str ∷ lit "sub-orders" ∷ uuid ∷ lit "return" ∷ lit "" ∷ []), "request-return")
    ∷ (under_orders (str ∷ lit "" ∷ []), "order-detail")
    ∷ []

-- Django's resolver, as documented: the patterns are tried in order and the first that matches has
-- the request. `is_uuid` is the test of the converter `uuid`.
pub record Resolver : Type 0 where
  pub is_uuid : String → Bool
  pub resolve : List (List Piece × String) → String → Option String
  pub in_order :
      (routes : List (List Piece × String)) (url : String)
      → resolve routes url ≡ first_match is_uuid routes (segments url)
