-- ===== src/Validation.antt =====
-- The value tests of server/lib/boolean_validations.ts, server/lib/regex.ts and
-- server/models/validations/ that the models use. Texts are walked by code points.
use Prim.Native.Char.{code}
use inventaire.Base.{
  ℕ, String, Bool, ◌&&◌, ◌||◌, List, [], ◌∷◌, length, all, leb, nat_beq, string_eq, nat_eq, ◌+◌,
  if◌then◌else◌,
}

-- The code points of a text.
abbrev pub codes : String → List ℕ
codes String.[] = []
codes (String.◌∷◌ c s) = code c ∷ codes s

unfoldable pub is_hex : ℕ → Bool
is_hex c = (leb b'0' c && leb c b'9') || (leb b'a' c && leb c b'f')

-- The length of a text in JavaScript: a code point past 0xFFFF is two units.
unfoldable pub text_length : String → ℕ
text_length String.[] = 0
text_length (String.◌∷◌ c s) = (if leb (code c) 0xFFFF then 1 else 2) + text_length s

-- boundedString
unfoldable pub bounded_string : ℕ → ℕ → String → Bool
unfolding text_length
bounded_string min max text = leb min (text_length text) && leb (text_length text) max

-- /^[0-9a-f]{32}$/
unfoldable pub is_couch_uuid : String → Bool
unfolding is_hex all
is_couch_uuid s = nat_beq (length (codes s)) 32 && all is_hex (codes s)
