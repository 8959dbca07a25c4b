-- ===== src/Core/Config.antt =====
-- src/core/config.py: the origins that CORS admits, read from one text or taken as a list. A text
-- comes from whoever constructs the settings; for a variable of the environment pydantic-settings
-- decodes JSON first.
pub mod Origins
use Prim.Native.Char.{Char, code}
use hotspot_payment_gateway.Base.{ℕ, String, List, [], ◌∷◌, ◌==◌, if◌then◌else◌}
use hotspot_payment_gateway.Base.Texts.{strip, is_empty}

-- `str | list[str]`, the value before validation.
pub data CorsOrigins : Type 0 where
  text : String → CorsOrigins
  listed : List String → CorsOrigins

-- A character before the first part.
abbrev pub prepended : Char → List String → List String
prepended c [] = String.◌∷◌ c String.[] ∷ []
prepended c (part ∷ parts) = String.◌∷◌ c part ∷ parts

-- `v.split(sep)` for a separator of one character.
unfoldable pub split : ℕ → String → List String
split sep String.[] = String.[] ∷ []
split sep (String.◌∷◌ c s) =
    let rest = split sep s in if code c == sep then String.[] ∷ rest else prepended c rest

-- `[o.strip() for o in parts if o.strip()]`
unfoldable pub stripped : List String → List String
unfolding strip
stripped [] = []
stripped (o ∷ parts) =
    let rest = stripped parts in if is_empty (strip o) then rest else strip o ∷ rest

-- `Settings._split_cors`
unfoldable pub split_cors : CorsOrigins → List String
unfolding split stripped
split_cors (text v) = stripped (split b',' v)
split_cors (listed v) = v
