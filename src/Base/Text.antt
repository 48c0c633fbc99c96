-- ===== src/Base/Text.antt =====
-- Texts as the source's string methods see them, over code points.
use Prim.Native.Nat.{ℕ}
use Prim.Native.Char.{code}
use Prim.Native.String.{String, [], ◌∷◌}
use mathlib.Core.Bool.{Bool, true, false, ◌||◌, ◌&&◌}
use provena.Base.Tests.{◌==◌, nat_eq}

-- `s.startsWith(p)`
abbrev pub starts_with : String → String → Bool
starts_with s [] = true
starts_with [] (d ∷ p) = false
starts_with (c ∷ s) (d ∷ p) = code c == code d && starts_with s p

-- `s.includes(ch)` for a text of one character.
abbrev pub includes_char : String → ℕ → Bool
includes_char [] n = false
includes_char (c ∷ s) n = code c == n || includes_char s n

-- `!s`: the empty text is falsy.
abbrev pub is_blank : String → Bool
is_blank [] = true
is_blank (c ∷ s) = false

-- The concatenation of texts, which computes on a literal.
infixr 55 ◌<>◌
abbrev pub ◌<>◌ : String → String → String
[] <> t = t
(c ∷ s) <> t = c ∷ (s <> t)
