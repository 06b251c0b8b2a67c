-- ===== src/Cors/Configured.antt =====
-- packages/middleware-cors/src: applyHeaders.ts and util.ts, with what is written of a response.
use marble_js.Base.{
  ℕ, ◌-◌, Option, ◌&&◌, List, [], ◌∷◌, ◌++◌, map, Text, codes, Dict, insert, leb, eqb,
  if◌then◌else◌,
}

pub data AccessControlHeader : Type 0 where
  origin methods headers credentials max_age expose_headers : AccessControlHeader

abbrev pub header_name : AccessControlHeader → Text
header_name origin = codes "Access-Control-Allow-Origin"
header_name methods = codes "Access-Control-Allow-Methods"
header_name headers = codes "Access-Control-Allow-Headers"
header_name credentials = codes "Access-Control-Allow-Credentials"
header_name max_age = codes "Access-Control-Max-Age"
header_name expose_headers = codes "Access-Control-Expose-Headers"

pub record ConfiguredHeader : Type 0 where
  pub key : AccessControlHeader
  pub value : Text

-- What the middleware writes of a response.
pub record Response : Type 0 where
  pub status_code : Option ℕ
  pub header_values : Dict Text

unfoldable pub set_headers : List ConfiguredHeader → Dict Text → Dict Text
set_headers [] d = d
set_headers (h ∷ hs) d = set_headers hs (insert (header_name h.key) h.value d)

unfoldable pub apply_headers : List ConfiguredHeader → Response → Response
unfolding set_headers
apply_headers hs res = record res { header_values = set_headers hs res.header_values }

-- `toUpperCase` in the ASCII range
unfoldable pub upper : ℕ → ℕ
upper c = if leb b'a' c && leb c b'z' then c - 32 else c

-- `str.split('-')`
abbrev pub add_to_first : ℕ → List Text → List Text
add_to_first c [] = (c ∷ []) ∷ []
add_to_first c (part ∷ parts) = (c ∷ part) ∷ parts

unfoldable pub split_dashes : Text → List Text
split_dashes [] = [] ∷ []
split_dashes (c ∷ s) =
    let parts = split_dashes s in if eqb c b'-' then [] ∷ parts else add_to_first c parts

-- `parts.join(separator)`
unfoldable pub join : Text → List Text → Text
join separator [] = []
join separator (part ∷ []) = part
join separator (part ∷ next ∷ parts) = part ++ separator ++ join separator (next ∷ parts)

-- `part.charAt(0).toUpperCase() + part.slice(1)`
unfoldable pub capitalize_part : Text → Text
unfolding upper
capitalize_part [] = []
capitalize_part (c ∷ s) = upper c ∷ s

unfoldable pub capitalize : Text → Text
unfolding split_dashes join capitalize_part
capitalize s = join (codes "-") (map capitalize_part (split_dashes s))
