-- ===== src/Session/Sync/Bearer.antt =====
-- The token that provena-web/src/app/session-sync/route.ts reads out of an `Authorization` header.
use Prim.Native.Char.{code}
use Prim.Native.String.{[], ◌∷◌}
use provena.Base.{String, false, ◌≡◌, refl}
use provena.Session.Sync.{is_space, drop_spaces, strip_bearer}

-- The client's header, `Bearer ${token}`.
abbrev pub bearer : String → String
bearer token = "B" ∷ "e" ∷ "a" ∷ "r" ∷ "e" ∷ "r" ∷ " " ∷ token

abbrev pub NoLeadingSpace : String → Type 0
NoLeadingSpace [] = Unit
NoLeadingSpace (c ∷ s) = is_space (code c) ≡ false

drop_spaces_of_NoLeadingSpace : (s : String) → NoLeadingSpace s → drop_spaces s ≡ s
unfolding drop_spaces
drop_spaces_of_NoLeadingSpace [] h = refl
drop_spaces_of_NoLeadingSpace (c ∷ s) h = rw h

-- The handler reads back the token that the client put into the header.
pub strip_bearer-bearer :
    (token : String) → NoLeadingSpace token → strip_bearer (bearer token) ≡ token
unfolding strip_bearer
strip_bearer-bearer token h = drop_spaces_of_NoLeadingSpace token h
