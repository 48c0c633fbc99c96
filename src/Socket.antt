-- ===== src/Socket.antt =====
-- provena-web/src/lib/hooks/useOrderSocket.ts: the effect that listens for news of an order. Its
-- ticket can come, or fail to come, before or after the effect is cleaned up.
pub mod Cleanup
use provena.Base.{
  String, Bool, true, false, ◌||◌, ◌==◌, string_eq, Option, none, some, List, [], ◌∷◌, is_blank,
  if◌then◌else◌,
}

-- The variables of one run of the effect: `ws`, of which it is known whether it is connected, and
-- `cancelled`; and the query keys that it invalidated, the latest first.
pub record Run : Type 0 where
  pub connected : Bool
  pub ticket_of : Option String
  pub cancelled : Bool
  pub invalidated : List (List String)

-- `ticket` and `ticket_failed` are the two ends of `getWsTicket()`; a message is given by its
-- `type`, or by none where it is malformed.
pub data Event : Type 0 where
  ticket : (value : String) → Event
  ticket_failed : Event
  message : (type : Option String) → Event
  cleanup : Event

abbrev pub falsy : Option String → Bool
falsy none = true
falsy (some text) = is_blank text

-- `if (!accessToken || !reference) return`; `none` where the effect does nothing.
unfoldable pub start : String → Option String → Option Run
start reference access_token =
    if falsy access_token || is_blank reference
    then none
    else some (record { connected = false; ticket_of = none; cancelled = false; invalidated = [] })

abbrev pub is_order_status : Option String → Bool
is_order_status none = false
is_order_status (some type) = type == "order_status"

unfoldable pub on_event : String → Event → Run → Run
on_event reference (ticket value) r =
    if r.cancelled then r else record r { connected = true; ticket_of = some value }
on_event reference ticket_failed r = r
on_event reference (message type) r =
    if is_order_status type
    then record r { invalidated = ("order" ∷ reference ∷ []) ∷ r.invalidated }
    else r
on_event reference cleanup r = record r { connected = false; cancelled = true }
