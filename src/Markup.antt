-- ===== src/Markup.antt =====
-- What a page shows, without its styles: the texts, links, buttons and fields of the markup under
-- provena-web/src, in their order. Icons are left out, unless they are the only sign of something.
use provena.Base.{ℕ, String, Bool, List, [], ◌∷◌, if◌then◌else◌}

-- A button is given by its label and whether it is disabled, a field by its label, or where it has
-- none its placeholder, and its value.
pub data Part : Type 0 where
  text : String → Part
  number : ℕ → Part
  link : (href label : String) → Part
  button : (label : String) (disabled : Bool) → Part
  field : (label value : String) → Part

-- `{test && (…)}`
abbrev pub when : Bool → List Part → List Part
when test parts = if test then parts else []

-- The addresses that the page links to.
abbrev pub hrefs : List Part → List String
hrefs [] = []
hrefs (link href label ∷ parts) = href ∷ hrefs parts
hrefs (text s ∷ parts) = hrefs parts
hrefs (number n ∷ parts) = hrefs parts
hrefs (button label disabled ∷ parts) = hrefs parts
hrefs (field label value ∷ parts) = hrefs parts
