-- ===== src/Session/Sync.antt =====
-- provena-web/src/app/session-sync/route.ts: the handler that verifies an access token with the API
-- and writes the cookies that the gate reads.
pub mod Bearer
pub mod Verified
use Prim.Native.Char.{code}
use Prim.Native.String.{[], ◌∷◌}
use provena.Base.{
  ℕ, ◌+◌, String, Bool, true, false, ◌&&◌, ◌||◌, Option, none, some, List, [], ◌∷◌, ◌++◌, map, ◌==◌,
  nat_eq, string_eq, leb, is_blank, if◌then◌else◌,
}

-- `\s` of a JavaScript pattern.
unfoldable pub is_space : ℕ → Bool
is_space n =
    (leb 9 n && leb n 13)
    || n == 32
    || n == 160
    || n == 0x1680
    || (leb 0x2000 n && leb n 0x200a)
    || n == 0x2028
    || n == 0x2029
    || n == 0x202f
    || n == 0x205f
    || n == 0x3000
    || n == 0xfeff

-- A character against a lower-case letter, with the flag `i`.
pub same_letter : ℕ → ℕ → Bool
same_letter n lower = n == lower || n + 32 == lower

pub drop_spaces : String → String
drop_spaces [] = []
drop_spaces (c ∷ s) = let rest = drop_spaces s in if is_space (code c) then rest else c ∷ s

-- What `\s+` takes: at least one character.
pub after_spaces : String → Option String
unfolding drop_spaces
after_spaces [] = none
after_spaces (c ∷ s) = if is_space (code c) then some (drop_spaces s) else none

pub after_letters : List ℕ → String → Option String
after_letters [] s = some s
after_letters (l ∷ ls) [] = none
after_letters (l ∷ ls) (c ∷ s) =
    let rest = after_letters ls s in if same_letter (code c) l then rest else none

-- `header.replace(/^Bearer\s+/i, '')`
unfoldable pub strip_bearer : String → String
unfolding after_letters after_spaces is_space same_letter
strip_bearer header = elim (after_letters (b'b' ∷ b'e' ∷ b'a' ∷ b'r' ∷ b'e' ∷ b'r' ∷ []) header) [
  | none ↦ header
  | some tail ↦ elim (after_spaces tail) [ none ↦ header | some token ↦ token ]
]

-- `text.replace(':', '')`: the first colon goes.
unfoldable pub without_colon : String → String
without_colon [] = []
without_colon (c ∷ s) = let rest = without_colon s in if code c == b':' then s else c ∷ rest

-- The options of `cookies.set`; `max_age` is in seconds.
pub record CookieOptions : Type 0 where
  pub path : String
  pub max_age : Option ℕ
  pub http_only : Bool
  pub same_site : Option String
  pub secure : Bool

pub record SetCookie : Type 0 where
  pub name : String
  pub value : String
  pub options : CookieOptions
  pub open options use *

-- `NextResponse.json({ ok }, { status })` with the cookies set on it, in order.
pub record Response : Type 0 where
  pub ok : Bool
  pub status : ℕ
  pub cookies : List SetCookie

-- The fields of the profile that the handler reads; either may be missing.
pub record Profile : Type 0 where
  pub role : Option String
  pub totp_enabled : Option Bool

-- How the request to `/auth/me/` can end: it throws (no network, or a body that is no JSON), it
-- answers with an error status, or it answers with a profile.
pub data MeAnswer : Type 0 where
  unreachable : MeAnswer
  not_ok : MeAnswer
  verified : Profile → MeAnswer

pub record Request : Type 0 where
  pub authorization : Option String
  pub x_forwarded_proto : Option String
  pub protocol : String

abbrev pub names : List String
names = "has_session" ∷ "user_role" ∷ "totp_enabled" ∷ []

abbrev pub cleared : CookieOptions
cleared = record {
  path = "/";
  max_age = some 0;
  http_only = false;
  same_site = none;
  secure = false;
}

unfoldable pub clear_on : Response → Response
clear_on res = record res {
  cookies =
      res.cookies ++ map (λ name. record { name = name; value = ""; options = cleared }) names;
}

abbrev pub or_text : Option String → String → String
or_text none text = text
or_text (some s) text = s

unfoldable pub proto : Request → String
unfolding without_colon
proto req = or_text req.x_forwarded_proto (without_colon req.protocol)

abbrev pub kept : Request → CookieOptions
kept req = record {
  path = "/";
  max_age = none;
  http_only = true;
  same_site = some "lax";
  secure = proto req == "https";
}

-- `profile.totp_enabled ? '1' : '0'`
abbrev pub flag_text : Option Bool → String
flag_text (some true) = "1"
flag_text _ = "0"

unfoldable pub accept : Request → Profile → Response
accept req profile = record {
  ok = true;
  status = 200;
  cookies =
      record { name = "has_session"; value = "1"; options = kept req }
      ∷ record { name = "user_role"; value = or_text profile.role ""; options = kept req }
      ∷ record { name = "totp_enabled"; value = flag_text profile.totp_enabled; options = kept req }
      ∷ [];
}

abbrev pub refuse : ℕ → Response
refuse status = record { ok = false; status = status; cookies = [] }

abbrev pub bearer_token : Option String → String
bearer_token none = ""
bearer_token (some header) = strip_bearer header

-- `me` is the API, asked with the token.
unfoldable pub post : (String → MeAnswer) → Request → Response
unfolding clear_on accept
post me req =
    let token = bearer_token req.authorization in
    if is_blank token then clear_on (refuse 401) else elim (me token) [
      | unreachable ↦ clear_on (refuse 502)
      | not_ok ↦ clear_on (refuse 401)
      | verified profile ↦ accept req profile
    ]

unfoldable pub delete : Response
unfolding clear_on
delete = clear_on (record { ok = true; status = 200; cookies = [] })
