-- ===== src/Shell/Nav.antt =====
-- provena-web/src/components/nav.tsx: the bar at the top of the shop, with the bell.
pub mod Ages
use provena.Base.{
  ℕ, ◌+◌, ◌-◌, ◌*◌, ◌/◌, String, Bool, true, false, ◌&&◌, not, Option, none, some, List, [], ◌∷◌,
  ◌++◌, map, ltb, ◌==◌, nat_eq, is_blank, is_empty, take, if◌then◌else◌,
}
use provena.Types.Auth.{UserProfile}
use provena.Types.Notice.{
  NotificationType, low_stock, order_placed, order_dispatched, order_delivered, payment_succeeded,
  general, Notification,
}
use provena.Orders.Card.{DateParser}
use provena.Requests.Account.{
  NotificationCall, mark_notification_read, mark_all_notifications_read, delete_notification,
}
use provena.Markup.{Part, text, number, link, button, when}

-- `notifIcon(type)`, by the icon's name.
unfoldable pub notif_icon : NotificationType → String
notif_icon order_placed = "Package"
notif_icon order_dispatched = "Truck"
notif_icon order_delivered = "CheckCircle2"
notif_icon payment_succeeded = "CreditCard"
notif_icon low_stock = "AlertCircle"
notif_icon general = "Bell"

-- How long ago something was, as it is printed; `not_a_date` where the date does not parse.
pub data Age : Type 0 where
  just_now : Age
  minutes hours days : ℕ → Age
  not_a_date : Age

unfoldable pub age_of_hours : ℕ → Age
age_of_hours hrs = if ltb hrs 24 then hours hrs else days (hrs / 24)

unfoldable pub age_of_minutes : ℕ → Age
unfolding age_of_hours
age_of_minutes mins =
    if ltb mins 1 then just_now else if ltb mins 60 then minutes mins else age_of_hours (mins / 60)

-- The age of a time, which is `none` where the date does not parse.
abbrev pub age_since : ℕ → Option ℕ → Age
age_since now none = not_a_date
age_since now (some time) = age_of_minutes ((now - time) / 60000)

-- `timeAgo(iso)`. A date in the future counts as now, as a negative difference does in the source.
unfoldable pub time_ago : DateParser → ℕ → String → Age
time_ago parse now iso = age_since now (parse iso)

-- `count > 9 ? '9+' : count`, shown where there is something to count.
unfoldable pub count_badge : ℕ → List Part
count_badge count = when (ltb 0 count) ((if ltb 9 count then text "9+" else number count) ∷ [])

-- The bell: whether it is open, and what its queries have answered.
pub record Bell : Type 0 where
  pub open_ : Bool
  pub notifications : List Notification
  pub unread_count : ℕ
  pub mark_all_pending : Bool

-- A click on a notification: the calls that are made, and the path that the browser is sent to.
pub record Clicked : Type 0 where
  pub bell : Bell
  pub calls : List NotificationCall
  pub path : Option String

abbrev pub truthy_link : Option String → Option String
truthy_link none = none
truthy_link (some path) = if is_blank path then none else some path

follow_link : Option String → List NotificationCall → Bell → Clicked
follow_link none calls b = record { bell = b; calls = calls; path = none }
follow_link (some path) calls b = record {
  bell = record b { open_ = false };
  calls = calls;
  path = some path;
}

unfoldable pub handle_notif_click : Notification → Bell → Clicked
unfolding follow_link
handle_notif_click notif b =
    follow_link (truthy_link notif.data_link)
      (if not notif.is_read then mark_notification_read notif.id ∷ [] else []) b

unfoldable pub toggle_bell : Bell → Bell
toggle_bell b = record b { open_ = not b.open_ }

-- A press of the mouse outside of the bell.
unfoldable pub press_outside : Bell → Bell
press_outside b = record b { open_ = false }

unfoldable pub mark_all : NotificationCall
mark_all = mark_all_notifications_read

unfoldable pub dismiss : Notification → NotificationCall
dismiss notif = delete_notification notif.id

unfoldable pub age_parts : Age → List Part
age_parts just_now = text "just now" ∷ []
age_parts (minutes n) = number n ∷ text "m ago" ∷ []
age_parts (hours n) = number n ∷ text "h ago" ∷ []
age_parts (days n) = number n ∷ text "d ago" ∷ []
age_parts not_a_date = text "NaNd ago" ∷ []

unfoldable pub notification_parts : DateParser → ℕ → Notification → List Part
unfolding age_parts
notification_parts parse now n =
    text (notif_icon n.notification_type)
      ∷ text n.title
      ∷ text n.body
      ∷ age_parts (time_ago parse now n.created_at)
    ++ button "Dismiss notification" false ∷ []

unfoldable pub list_parts : DateParser → ℕ → List Notification → List Part
unfolding notification_parts
list_parts parse now [] = []
list_parts parse now (n ∷ ns) = notification_parts parse now n ++ list_parts parse now ns

unfoldable pub bell_view : DateParser → ℕ → Bell → List Part
unfolding list_parts
bell_view parse now b =
    button "Notifications" false ∷ count_badge b.unread_count
    ++ when b.open_ (
        text "Notifications"
          ∷ when (ltb 0 b.unread_count) (button "Mark all as read" b.mark_all_pending ∷ [])
        ++ (if is_empty b.notifications
            then text "No notifications yet." ∷ []
            else list_parts parse now (take 15 b.notifications))
        ++ link "/account/notifications" "Notification settings" ∷ [])

-- `user.first_name || 'Account'`
abbrev pub account_name : Option UserProfile → String
account_name none = "Account"
account_name (some user) = if is_blank user.first_name then "Account" else user.first_name

unfoldable pub menu_view : Option UserProfile → List Part
menu_view none = link "/login" "Sign in" ∷ []
menu_view (some user) =
    text user.first_name
    ∷ text user.last_name
    ∷ text user.email
    ∷ link "/orders" "My orders"
    ∷ link "/wishlist" "Saved items"
    ∷ link "/account/payments" "Payment history"
    ∷ link "/account/notifications" "Notifications"
    ∷ button "Sign out" false
    ∷ []

unfoldable pub bell_for : DateParser → ℕ → Option UserProfile → Bell → List Part
bell_for parse now none b = []
bell_for parse now (some user) b = bell_view parse now b

-- `open_` says whether the menu is open.
unfoldable pub nav_view : DateParser → ℕ → Option UserProfile → Bell → Bool → ℕ → List Part
unfolding bell_for menu_view
nav_view parse now user b open_ cart_count =
    link "/catalogue" "Provena" ∷ bell_for parse now user b
    ++ button (account_name user) false ∷ when open_ (menu_view user)
    ++ button "Cart" false ∷ count_badge cart_count
