-- ===== src/SignIn.antt =====
-- The pages under provena-web/src/app/(auth), and the guard of provena-web/src/hooks/use-auth-guard.ts.
pub mod Login
pub mod Register
pub mod Reset
pub mod Guard
pub mod Passwords
use Prim.Native.Char.{code}
use Prim.Native.String.{[], ◌∷◌}
use provena.Base.{
  ℕ, ◌+◌, String, Bool, true, false, ◌&&◌, Option, none, some, List, [], leb, is_blank,
  if◌then◌else◌,
}
use provena.Types.Auth.{UserRole, buyer, supplier, admin, UserProfile}

-- `err.response?.data` of an error, as far as the pages look at it: `error.message`, `detail`, and
-- the first value of the object, as a text if it is one or a list of them.
pub record ErrorData : Type 0 where
  pub message : Option String
  pub detail : Option String
  pub first : Option String

-- `a ?? b`
abbrev pub or_else : Option String → Option String → Option String
or_else none b = b
or_else (some a) b = some a

abbrev pub or_text : Option String → String → String
or_text none text = text
or_text (some a) text = a

-- `data?.error?.message ?? data?.detail`
abbrev pub stated : Option ErrorData → Option String
stated none = none
stated (some data_) = or_else data_.message data_.detail

abbrev pub first_of : Option ErrorData → Option String → Option String
first_of none msg = msg
first_of (some data_) msg = data_.first

abbrev pub falsy : Option String → Bool
falsy none = true
falsy (some s) = is_blank s

-- `extractError(err, fallback)`
unfoldable pub extract_error : Option ErrorData → String → String
extract_error data_ fallback =
    let msg = stated data_ in or_text (if falsy msg then first_of data_ msg else msg) fallback

-- `value.replace(/\D/g, '')`
abbrev pub is_digit : ℕ → Bool
is_digit n = leb 48 n && leb n 57

unfoldable pub digits_only : String → String
digits_only [] = []
digits_only (c ∷ s) = let rest = digits_only s in if is_digit (code c) then c ∷ rest else rest

-- `text.length`, for texts without surrogate pairs.
pub text_length : String → ℕ
text_length [] = 0
text_length (c ∷ s) = text_length s + 1

-- Where a user of the role belongs.
unfoldable pub fallback_for : UserRole → String
fallback_for admin = "/admin/dashboard"
fallback_for supplier = "/supplier/dashboard"
fallback_for buyer = "/catalogue"

-- What a successful sign-in does, in order.
pub data Effect : Type 0 where
  merge_guest_cart : (access_token : String) → Effect
  store_login : (user : UserProfile) (access_token : String) → Effect
  push : (path : String) → Effect
