-- ===== src/Types/Notice.antt =====
-- provena-web/src/lib/api/types.ts, the section on notifications. Of the data of a notification only
-- its link is looked at.
use provena.Base.{String, Bool, Option}

pub data NotificationType : Type 0 where
  low_stock order_placed order_dispatched order_delivered payment_succeeded general :
      NotificationType

pub record Notification : Type 0 where
  pub id : String
  pub notification_type : NotificationType
  pub title : String
  pub body : String
  pub data_link : Option String
  pub is_read : Bool
  pub created_at : String
