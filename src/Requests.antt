-- ===== src/Requests.antt =====
-- The functions of provena-web/src/lib/api, each of which makes one request of the API: a function
-- is a call, and what it asks for is a request as a value.
pub mod Account
pub mod Shop
pub mod Ordering
pub mod Management
pub mod Admin
pub mod Routes
pub mod Exempt
use provena.Base.{
  ℕ, String, Bool, true, false, Option, none, some, List, [], ◌∷◌, ◌<>◌, ℤ, pos, is_blank,
  if◌then◌else◌,
}
use provena.Client.{Config}
use provena.Client.System.{fresh}

pub data Method : Type 0 where
  get post patch delete : Method

-- What stands in a field of a request. Decimal numbers and dates are texts; a field that is
-- `undefined` is left out of the request.
pub data Value : Type 0 where
  null : Value
  flag : Bool → Value
  number : ℤ → Value
  text : String → Value
  texts : List String → Value
  object : List (String × String) → Value
  item_list : List (String × ℕ) → Value

abbrev pub Fields : Type 0
Fields = List (String × Value)

pub data Body : Type 0 where
  no_body : Body
  json : Fields → Body
  form_file : (file : String) → Body

-- `with_credentials` says whether the call itself sets the option, which is the client's default too.
pub record HttpRequest : Type 0 where
  pub method : Method
  pub url : String
  pub params : Fields
  pub body : Body
  pub authorization : Option String
  pub with_credentials : Bool

-- `apiClient.get(url, { params })`, `post(url, data)`, `patch(url, data)` and `delete(url)`.
abbrev pub get_of : String → Fields → HttpRequest
get_of url params = record {
  method = get;
  url = url;
  params = params;
  body = no_body;
  authorization = none;
  with_credentials = false;
}

abbrev pub send_of : Method → String → Body → HttpRequest
send_of method url body = record {
  method = method;
  url = url;
  params = [];
  body = body;
  authorization = none;
  with_credentials = false;
}

-- `{ params: { page } }`
abbrev pub page_param : ℕ → Fields
page_param page = ("page", number (pos page)) ∷ []

-- `value ?? ''`
abbrev pub or_empty : Option String → Value
or_empty none = text ""
or_empty (some value) = text value

-- `value ? { name: value } : {}`
abbrev pub if_given : String → Option String → Fields
if_given name none = []
if_given name (some value) = if is_blank value then [] else (name, text value) ∷ []

-- The request as the interceptors of the client see it.
abbrev pub config_of : ℕ → HttpRequest → Config
config_of id r = record (fresh id (some r.url)) { authorization = r.authorization }
