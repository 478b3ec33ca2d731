-- ===== src/Properties/Patterns.antt =====
-- Regular expressions as the source uses them, and `test`, by derivatives. There are no captures, so
-- the order in which JavaScript tries the ways to match has no effect.
use inventaire.Base.{
  ℕ, zero, suc, ◌+◌, ◌-◌, ◌/◌, ◌%◌, String, Bool, true, false, ◌&&◌, ◌||◌, List, [], ◌∷◌, any, leb,
  nat_beq, nat_eq, includes, if◌then◌else◌,
}
use inventaire.Validation.{codes}

pub data Regex : Type 0 where
  fail empty : Regex
  one : (ℕ → Bool) → Regex
  seq alt : Regex → Regex → Regex
  star : Regex → Regex

unfoldable pub nullable : Regex → Bool
nullable fail = false
nullable empty = true
nullable (one p) = false
nullable (seq r q) = nullable r && nullable q
nullable (alt r q) = nullable r || nullable q
nullable (star r) = true

-- What is to follow a first character
unfoldable pub derive : ℕ → Regex → Regex
unfolding nullable
derive c fail = fail
derive c empty = fail
derive c (one p) = if p c then empty else fail
derive c (seq r q) =
    let later = derive c q in
    let first = seq (derive c r) q in if nullable r then alt first later else first
derive c (alt r q) = alt (derive c r) (derive c q)
derive c (star r) = seq (derive c r) (star r)

unfoldable pub matches : Regex → List ℕ → Bool
unfolding nullable derive
matches r [] = nullable r
matches r (c ∷ s) = matches (derive c r) s

-- Any character, [a-b], the characters of a text, \d, \w
abbrev pub anything : Regex
anything = one (λ _. true)

abbrev pub within : ℕ → ℕ → ℕ → Bool
within a b c = leb a c && leb c b

abbrev pub one_of : String → ℕ → Bool
one_of s c = includes (codes s) c

abbrev pub digit_code : ℕ → Bool
digit_code c = within b'0' b'9' c

abbrev pub word_code : ℕ → Bool
word_code c = digit_code c || (within b'a' b'z' c || (within b'A' b'Z' c || nat_beq c b'_'))

abbrev pub spelled : List ℕ → Regex
spelled [] = empty
spelled (c ∷ s) = seq (one (nat_beq c)) (spelled s)

abbrev pub literal : String → Regex
literal s = spelled (codes s)

abbrev pub times : ℕ → Regex → Regex
times zero r = empty
times (suc n) r = seq r (times n r)

-- r{0,n}
abbrev pub up_to : ℕ → Regex → Regex
up_to zero r = empty
up_to (suc n) r = alt empty (seq r (up_to n r))

-- r{a,b}, r+, r?
abbrev pub between : ℕ → ℕ → Regex → Regex
between a b r = seq (times a r) (up_to (b - a) r)

abbrev pub some_of : Regex → Regex
some_of r = seq r (star r)

abbrev pub optional : Regex → Regex
optional r = alt empty r

-- One branch of the alternatives at the top, with ^ and $ if it has them
pub record Branch : Type 0 where
  pub from_start : Bool
  pub body : Regex
  pub to_end : Bool

abbrev pub Pattern : Type 0
Pattern = List Branch

abbrev pub whole : Regex → Pattern
whole r = record { from_start = true; body = r; to_end = true } ∷ []

abbrev pub anywhere : Regex → Pattern
anywhere r = record { from_start = false; body = r; to_end = false } ∷ []

abbrev pub or_anchor : Bool → Regex
or_anchor anchored = if anchored then empty else star anything

unfoldable pub test_branch : List ℕ → Branch → Bool
unfolding matches
test_branch s b = matches (seq (or_anchor b.from_start) (seq b.body (or_anchor b.to_end))) s

unfoldable pub test_pattern : Pattern → List ℕ → Bool
unfolding test_branch any
test_pattern p s = any (test_branch s) p

-- The code units of a text: a code point past 0xFFFF is two of them.
unfoldable pub code_units : List ℕ → List ℕ
code_units [] = []
code_units (c ∷ s) =
    let rest = code_units s in
    if leb c 0xFFFF
    then c ∷ rest
    else (0xD800 + (c - 0x10000) / 1024) ∷ (0xDC00 + (c - 0x10000) % 1024) ∷ rest
