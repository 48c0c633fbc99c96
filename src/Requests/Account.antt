-- ===== src/Requests/Account.antt =====
-- provena-web/src/lib/api/auth.ts, addresses.ts and notifications.ts.
use provena.Base.{ℕ, String, Bool, true, Option, [], ◌∷◌, ◌++◌, ◌<>◌, if◌then◌else◌}
use provena.Requests.{
  Method, text, Fields, no_body, json, HttpRequest, get_of, send_of, page_param, or_empty,
}

pub data AuthCall : Type 0 where
  login : (email password : String) → AuthCall
  login_totp : (totp_session_token totp_code : String) → AuthCall
  logout : AuthCall
  get_me : AuthCall
  update_me : (payload : Fields) → AuthCall
  change_password : (current_password new_password new_password_confirm : String) → AuthCall
  register : (payload : Fields) → AuthCall
  request_password_reset : (email : String) → AuthCall
  confirm_password_reset : (token new_password new_password_confirm : String) → AuthCall
  get_totp_setup_uri : AuthCall
  enable_totp : (code : String) → AuthCall
  disable_totp : (code : String) → AuthCall
  delete_account : (password : String) (totp_code : Option String) → AuthCall

-- `{ withCredentials: true }`
abbrev credentials : HttpRequest → HttpRequest
credentials r = record r { with_credentials = true }

unfoldable pub auth_request : AuthCall → HttpRequest
auth_request (login email password) = credentials (
    send_of Method.post "/auth/login/"
      (json (("email", text email) ∷ ("password", text password) ∷ [])))
auth_request (login_totp totp_session_token totp_code) = credentials (
    send_of Method.post "/auth/login/totp/"
      (json (("totp_session_token", text totp_session_token) ∷ ("totp_code", text totp_code) ∷ [])))
auth_request logout = credentials (send_of Method.post "/auth/logout/" (json []))
auth_request get_me = get_of "/auth/me/" []
auth_request (update_me payload) = send_of Method.patch "/auth/me/" (json payload)
auth_request (change_password current_password new_password new_password_confirm) =
    send_of Method.post "/auth/change-password/" (
      json (
        ("current_password", text current_password)
        ∷ ("new_password", text new_password)
        ∷ ("new_password_confirm", text new_password_confirm)
        ∷ []))
auth_request (register payload) = credentials (send_of Method.post "/auth/register/" (json payload))
auth_request (request_password_reset email) =
    send_of Method.post "/auth/password-reset/" (json (("email", text email) ∷ []))
auth_request (confirm_password_reset token new_password new_password_confirm) =
    send_of Method.post "/auth/password-reset/confirm/" (
      json (
        ("token", text token)
        ∷ ("new_password", text new_password)
        ∷ ("new_password_confirm", text new_password_confirm)
        ∷ []))
auth_request get_totp_setup_uri = get_of "/auth/totp/setup/" []
auth_request (enable_totp code) =
    send_of Method.post "/auth/totp/enable/" (json (("code", text code) ∷ []))
auth_request (disable_totp code) =
    send_of Method.post "/auth/totp/disable/" (json (("code", text code) ∷ []))
auth_request (delete_account password totp_code) = credentials (
    send_of Method.post "/auth/me/delete/"
      (json (("password", text password) ∷ ("totp_code", or_empty totp_code) ∷ [])))

pub data AddressCall : Type 0 where
  get_addresses : AddressCall
  create_address : (payload : Fields) → AddressCall
  update_address : (id : String) (payload : Fields) → AddressCall
  delete_address : (id : String) → AddressCall
  set_default_address : (id : String) → AddressCall

unfoldable pub address_request : AddressCall → HttpRequest
address_request get_addresses = get_of "/auth/addresses/" []
address_request (create_address payload) = send_of Method.post "/auth/addresses/" (json payload)
address_request (update_address id payload) =
    send_of Method.patch ("/auth/addresses/" <> id <> "/") (json payload)
address_request (delete_address id) =
    send_of Method.delete ("/auth/addresses/" <> id <> "/") no_body
address_request (set_default_address id) =
    send_of Method.post ("/auth/addresses/" <> id <> "/default/") no_body

pub data NotificationCall : Type 0 where
  get_notifications : (unread_only : Bool) (page : ℕ) → NotificationCall
  mark_notification_read : (id : String) → NotificationCall
  mark_all_notifications_read : NotificationCall
  delete_notification : (id : String) → NotificationCall
  get_notification_preferences : NotificationCall
  update_notification_preferences : (prefs : Fields) → NotificationCall

unfoldable pub notification_request : NotificationCall → HttpRequest
notification_request (get_notifications unread_only page) =
    get_of "/notifications/"
      (page_param page ++ (if unread_only then ("unread", text "true") ∷ [] else []))
notification_request (mark_notification_read id) =
    send_of Method.post ("/notifications/" <> id <> "/read/") no_body
notification_request mark_all_notifications_read =
    send_of Method.post "/notifications/read-all/" no_body
notification_request (delete_notification id) =
    send_of Method.delete ("/notifications/" <> id <> "/") no_body
notification_request get_notification_preferences = get_of "/notifications/preferences/" []
notification_request (update_notification_preferences prefs) =
    send_of Method.patch "/notifications/preferences/" (json prefs)
