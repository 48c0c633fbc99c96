-- ===== src/Lib.antt =====
-- Provena's storefront (provena-web, a Next.js application) sits in front of an HTTP API
-- (provena-api). This library models the storefront's own logic.
--
-- Session: who is let through. provena-web/src/middleware.ts, the gate, reads three cookies
-- and the path name of a request and serves it or redirects it (`Session/Gate`:
-- `middleware`, whose two role branches share `role_area`; Gate/Access says who is served,
-- Gate/Hops follows redirects). provena-web/src/app/session-sync/route.ts writes those
-- cookies after it has asked the API who owns an access token (`Session/Sync`: `post` is
-- POST, `delete` is DELETE, `strip_bearer` the pattern on the header).
-- provena-web/src/store/auth.ts keeps the user and the token and calls that handler
-- (`Session/Store`: a method returns the new state and its calls). Session/Store/Agreement
-- runs the three together, over a browser's cookie store (`Session/Jar`, a parameter with
-- one law) and the API's changing profiles. provena-web/src/lib/navigation.ts decides where
-- the login page may lead (`Session/Navigation`).
--
-- Client: provena-web/src/lib/api/client.ts. `on_request` and `on_error` are the interceptors
-- up to their `await`; `on_refreshed` and `on_refresh_failed` are what follows it.
-- Client/System puts them among requests that are answered in any order, as a step relation;
-- System/Progress is about how it ends.
--
-- Requests: the functions of provena-web/src/lib/api that pass a request on to the client, each
-- a constructor (`AuthCall` and the like, by file) with the request that it makes
-- (`auth_request` and the like). Requests/Exempt puts all of them together and before the
-- client. Requests/Routes is the table of provena-api/apps/orders/urls.py, and Routes/Reached
-- compares the calls of orders.ts with it, over Django's resolver, a parameter with its
-- documented law.
--
-- Orders: provena-web/src/app/orders/[reference]/page.tsx. Orders/Card is what a part of an
-- order offers, Orders/Forms its two forms as functions of events, Orders/Labels its words,
-- with those of provena-web/src/components/supplier/status-badge.tsx. Orders/Page is the
-- cancellation, the requests and what the page shows, with
-- provena-web/src/components/order-breakdown.tsx; Page/Offered says which buttons a card has.
--
-- Checkout: provena-web/src/app/checkout/page.tsx, over an API that answers `place_order` and
-- `create_payment_intent` and threads a state of its own. Checkout/Payment is the step of the
-- payment, Checkout/View what the page shows, Checkout/Returning where a payment leads. Cart:
-- the visitor's cart and the grouping of provena-web/src/app/catalogue/_client.tsx; Cart/Basket
-- is what the cart promises, a function from variants to quantities. Browse is the rest of that
-- page (`apply_sort`, `build_local_cart_items`, `product_params`, and its handlers as a
-- function of events, of which one is the end of the search's timer), with Browse/Ordered on
-- the order of what it shows, over any sort that keeps the laws of the language's standard,
-- Browse/Items on the cart's items and Browse/Asking on the request; Browse/View adds
-- provena-web/src/components/category-tabs.tsx and supplier-section.tsx. Home is
-- provena-web/src/app/page.tsx and Storefront provena-web/src/app/suppliers/[slug]/_client.tsx,
-- which have a cart of their own. Viewed: provena-web/src/store/recently-viewed.ts and its
-- strip. Paging: provena-web/src/components/pagination.tsx. Socket:
-- provena-web/src/lib/hooks/useOrderSocket.ts. Types: the records of
-- provena-web/src/lib/api/types.ts and addresses.ts that these use.
--
-- SignIn: the pages under provena-web/src/app/(auth), a module for each (`SignIn/Login`,
-- `SignIn/Register`, `SignIn/Reset`). A handler is split at its `await`: `handle_login` is what
-- handleLogin does up to the call, `login_answered` what it does with the answer, with the
-- effects in order. Login/Landing carries the effects out with the store, the session-sync
-- handler, the cookies and the gate; Login/Steps is the form over a history of events.
-- SignIn/Passwords says when the forms for a new password make their call. `SignIn/Guard` is
-- provena-web/src/hooks/use-auth-guard.ts, which Guard/Agreement compares with the gate.
--
-- Shell: the frame of the pages. `Shell/Nav` is provena-web/src/components/nav.tsx,
-- `Shell/Areas` the navigation of provena-web/src/components/admin/admin-shell.tsx and
-- provena-web/src/components/supplier/sidebar.tsx, and Shell/Links compares what they link to
-- with the gate. Markup is how a view is written down: the texts, links, buttons and fields in
-- their order.
--
-- Goods: `Goods/Card` is provena-web/src/components/product-card.tsx, `Goods/Drawer`
-- provena-web/src/components/cart-drawer.tsx, and `Goods/Detail` the page of
-- provena-web/src/app/catalogue/[slug]/_client.tsx, with its state as a record, its handlers as
-- a function of events, and its requests as constructors of Requests; Detail/View is what it
-- shows. Detail/Asking and Detail/Rating run histories of events on it; Goods/Hearts puts a
-- card before the page's wishlist.
--
-- Sell: provena-web/src/app/sell/page.tsx. Sell/Upgrade carries a successful application
-- through the store, the session-sync handler, the cookies and the gate. Stock:
-- provena-web/src/app/supplier/inventory/page.tsx, with Stock/View for what it shows and
-- Stock/Rows for histories of events. Listing:
-- provena-web/src/app/supplier/products/page.tsx, with the calls that are under way in the
-- state of its dialog, so that answers can come in any order; Listing/Importing runs
-- histories of them. Admin: provena-web/src/app/admin/products/page.tsx (`Admin/Products`,
-- whose selection Products/Selection compares with a set) and the pages of the same kind for
-- banners, disputes and discounts (`Admin/Banners`, `Admin/Disputes`, `Admin/Discounts`).
-- Fulfil: provena-web/src/app/supplier/orders/page.tsx, with Fulfil/Tracking on histories of
-- events and Fulfil/Returns for provena-web/src/app/supplier/returns/page.tsx. Settings:
-- provena-web/src/app/supplier/settings/page.tsx, with Settings/Saved for what is saved,
-- over the API's decimal fields, a parameter. Addresses:
-- provena-web/src/app/account/addresses/page.tsx; Addresses/Forms runs histories of events,
-- answers with the list among them. Wishes: provena-web/src/app/wishlist/page.tsx;
-- Wishes/Pages puts it before an API that serves a list by pages. Security:
-- provena-web/src/app/account/security/page.tsx, which Security/Enforced puts before the
-- gate.
--
-- Numbers are natural numbers without a bound: quantities, pages and times in milliseconds stay
-- far below 2^53. Amounts of money are texts, as in the source; where Browse compares or adds
-- them a parameter reads them as whole pence, so the rounding of floating-point numbers is left
-- out. Text methods that are the language's (`trim`, `toUpperCase`, `Date.parse`, `Number`,
-- `toFixed`, `toLocaleDateString`) are parameters. All recursion is structural; the number of
-- redirects that a browser follows is bounded by two, since the pages that a redirect leads to
-- are served or lead to the security page.
--
-- Not modelled: the markup of the pages but for the views named above, styles, queries and
-- their caches, the answers of the API but for the ones named above, the pages of
-- administrators and of suppliers but for the ones named above, sample data, the matcher of
-- the gate's configuration, calls of `/session-sync` that throw (the store ignores them),
-- and provena-api, which is another program.
mod Base
pub mod Types
pub mod Client
pub mod Session
pub mod Orders
pub mod Viewed
pub mod Paging
pub mod Socket
pub mod Checkout
pub mod Cart
pub mod Browse
pub mod Requests
pub mod Markup
pub mod SignIn
pub mod Shell
pub mod Goods
pub mod Sell
pub mod Stock
pub mod Listing
pub mod Fulfil
pub mod Settings
pub mod Storefront
pub mod Home
pub mod Security
pub mod Admin
pub mod Wishes
pub mod Addresses
mod Tests
