-- ===== src/Session/Navigation.antt =====
-- provena-web/src/lib/navigation.ts: where the login page may send the browser next.
pub mod SafeNext
use provena.Base.{
  String, ◌||◌, not, Option, none, some, starts_with, includes_char, is_blank, if◌then◌else◌,
}

-- `null` and `undefined` are `none`; the code of a backslash is 92.
unfoldable pub safe_next : Option String → String → String
safe_next none fallback = fallback
safe_next (some next) fallback =
    if is_blank next || not (starts_with next "/") || starts_with next "//" || includes_char next 92
    then fallback
    else next
