-- ===== src/Properties/Ids.antt =====
-- The patterns of external ids and the allowed values that the table of properties refers to
-- (server/controllers/entities/lib/properties/properties_values_constraints.ts and
-- allowed_values_per_type_per_property.ts, server/lib/regex.ts).
use inventaire.Base.{ℕ, String, Bool, true, false, ◌||◌, not, List, [], ◌∷◌, nat_beq}
use inventaire.Texts.{is_space_code}
use inventaire.Properties.Patterns.{
  Regex, one, seq, alt, star, within, one_of, digit_code, word_code, literal, times, up_to, between,
  some_of, optional, Pattern, whole, anywhere,
}

abbrev pub digit : Regex
digit = one digit_code

-- [1-9]
abbrev pub nonzero : Regex
nonzero = one (within b'1' b'9')

-- [\dX]
abbrev pub digit_or_x : Regex
digit_or_x = one (λ c. digit_code c || nat_beq c b'X')

abbrev pub word_or_dash : ℕ → Bool
word_or_dash c = word_code c || nat_beq c b'-'

abbrev pub word_or_dot : ℕ → Bool
word_or_dot c = word_code c || nat_beq c b'.'

abbrev pub is_lower_or_digit : ℕ → Bool
is_lower_or_digit c = within b'a' b'z' c || digit_code c

abbrev pub one_of_texts : List String → Regex
one_of_texts [] = Regex.fail
one_of_texts (t ∷ ts) = alt (literal t) (one_of_texts ts)

-- /^[1-9]\d{0,n}$/
abbrev pub digits_from_1 : ℕ → Pattern
digits_from_1 n = whole (seq nonzero (up_to n digit))

-- PositiveInteger, StrictlyPositiveInteger and SignedInteger
abbrev pub integer : Pattern
integer = whole (some_of digit)

abbrev pub strictly_positive_integer : Pattern
strictly_positive_integer = whole (seq nonzero (star digit))

abbrev pub signed_integer : Pattern
signed_integer = whole (seq (optional (literal "-")) (seq nonzero (star digit)))

abbrev pub hex_digits : ℕ → Regex
hex_digits n = times n (one (λ c. digit_code c || within b'a' b'f' c))

abbrev pub dash : Regex
dash = literal "-"

-- uuidPattern
abbrev pub uuid : Regex
uuid = seq (hex_digits 8) (
    seq dash (
      seq (hex_digits 4)
        (seq dash (seq (hex_digits 4) (seq dash (seq (hex_digits 4) (seq dash (hex_digits 12))))))))

abbrev pub uuid_pattern : Pattern
uuid_pattern = anywhere uuid

-- ISNI
abbrev pub isni : Pattern
isni = whole (seq (times 7 (literal "0")) (seq (times 8 digit) digit_or_x))

-- GND ID: the first of the four alternatives has ^ and the last has $.
abbrev pub gnd : Pattern
gnd =
    record {
      from_start = true;
      body =
          seq (literal "1") (seq (optional (one (one_of "01"))) (seq (times 7 digit) digit_or_x));
      to_end = false;
    }
    ∷ record {
      from_start = false;
      body = seq (one (one_of "47")) (seq (times 6 digit) (seq dash digit));
      to_end = false;
    }
    ∷ record {
      from_start = false;
      body = seq nonzero (seq (up_to 7 digit) (seq dash digit_or_x));
      to_end = false;
    }
    ∷ record {
      from_start = false;
      body = seq (literal "3") (seq (times 7 digit) digit_or_x);
      to_end = true;
    }
    ∷ []

abbrev pub library_of_congress : Pattern
library_of_congress = whole (
    seq (one_of_texts ("gf" ∷ "n" ∷ "nb" ∷ "nr" ∷ "no" ∷ "ns" ∷ "sh" ∷ "sj" ∷ [])) (
      seq
        (alt (seq (one (within b'4' b'9')) digit)
          (alt (literal "00") (seq (literal "20") (seq (one (within b'0' b'2')) digit))))
        (times 6 digit)))

abbrev pub bnf : Pattern
bnf = whole (seq (times 8 digit) (one (λ c. digit_code c || one_of "bcdfghjkmnpqrstvwxz" c)))

-- DOI; a dot is any character but a line end.
abbrev pub doi : Pattern
doi = whole (
    seq (literal "10") (
      seq (one (λ c. not (nat_beq c 10 || (nat_beq c 13 || (nat_beq c 8232 || nat_beq c 8233)))))
        (seq (between 4 9 digit) (seq (literal "/") (some_of (one (λ c. not (is_space_code c))))))))

abbrev pub orcid : Pattern
orcid = whole (
    seq (literal "0000-000") (
      seq
        (alt (seq (literal "1-") (one (within b'5' b'9')))
          (alt (seq (literal "2-") digit) (seq (literal "3-") (one (within b'0' b'4')))))
        (seq (times 3 digit) (seq dash (seq (times 3 digit) (optional digit_or_x))))))

abbrev pub open_library_id : String → Pattern
open_library_id letter =
    whole (seq (literal "OL") (seq nonzero (seq (up_to 7 digit) (literal letter))))

abbrev pub open_library : List (String × Pattern)
open_library =
    ("edition", open_library_id "M")
    ∷ ("work", open_library_id "W")
    ∷ ("human", open_library_id "A")
    ∷ []

abbrev pub xx_id : Pattern
xx_id = whole (seq (literal "XX") (between 4 7 digit))

-- Biblioteca Nacional de España ID
abbrev pub bne : List (String × Pattern)
bne =
    ("edition", whole (seq (one_of_texts ("bima" ∷ "bimo" ∷ "bipa" ∷ [])) (times 10 digit)))
    ∷ ("work", xx_id)
    ∷ ("human", xx_id)
    ∷ []

abbrev pub isbn_publisher_prefix : Pattern
isbn_publisher_prefix = whole (
    seq (literal "97")
      (seq (one (one_of "89")) (seq dash (seq (between 1 5 digit) (seq dash (between 2 7 digit))))))

-- /^\w+@[a-z0-9.-]+[a-z0-9]+$/
abbrev pub mastodon : Pattern
mastodon = whole (
    seq (some_of (one word_code)) (
      seq (literal "@") (
        seq (some_of (one (λ c. is_lower_or_digit c || one_of ".-" c)))
          (some_of (one is_lower_or_digit)))))

abbrev pub bluesky : Pattern
bluesky = whole (some_of (one (λ c. word_or_dash c || nat_beq c b'.')))

-- Threads username
abbrev pub threads : Pattern
threads = whole (
    seq (up_to 2 (literal "_")) (
      seq (some_of (one is_lower_or_digit)) (
        seq
          (star (
            seq (alt (literal ".") (alt (between 1 4 (literal "_")) (literal "._")))
              (some_of (one is_lower_or_digit))))
          (up_to 2 (literal "_")))))

-- Instagram username, after the two lookaheads
abbrev pub instagram : Pattern
instagram = whole (seq (one word_code) (up_to 29 (one word_or_dot)))

abbrev pub instances_of : List (String × List String)
instances_of =
    ("collections", "wd:Q20655472" ∷ [])
    ∷ ("editions", "wd:Q3331189" ∷ [])
    ∷ ("humans", "wd:Q5" ∷ [])
    ∷ ("publishers", "wd:Q2085381" ∷ [])
    ∷ (
      "series",
      "wd:Q277759" ∷ "wd:Q1667921" ∷ "wd:Q14406742" ∷ "wd:Q21198342" ∷ "wd:Q74262765"
          ∷ "wd:Q104213567" ∷ [],
    )
    ∷ (
      "works",
      "wd:Q47461344" ∷ "wd:Q7725634" ∷ "wd:Q1004" ∷ "wd:Q725377" ∷ "wd:Q25379" ∷ "wd:Q49084"
          ∷ "wd:Q8274" ∷ "wd:Q562214" ∷ [],
    )
    ∷ []

abbrev pub distribution_formats : List (String × List String)
distribution_formats =
    (
      "editions",
      "wd:Q193934" ∷ "wd:Q193955" ∷ "wd:Q17994250" ∷ "wd:Q2831984" ∷ "wd:Q128093" ∷ "wd:Q106833"
          ∷ [],
    )
    ∷ []

abbrev pub forms_of_creative_work : List (String × List String)
forms_of_creative_work =
    (
      "works",
      "wd:Q8261" ∷ "wd:Q25379" ∷ "wd:Q1279564" ∷ "wd:Q12106333" ∷ "wd:Q125544547" ∷ "wd:Q19357149"
          ∷ "wd:Q105420" ∷ "wd:Q1266946" ∷ "wd:Q384515" ∷ "wd:Q193495" ∷ "wd:Q83790" ∷ "wd:Q35760"
          ∷ "wd:Q1143604" ∷ "wd:Q780605" ∷ "wd:Q23622" ∷ "wd:Q5292" ∷ "wd:Q49084" ∷ "wd:Q472808"
          ∷ "wd:Q5185279" ∷ "wd:Q149537" ∷ "wd:Q642946" ∷ "wd:Q20024995" ∷ "wd:Q2352616"
          ∷ "wd:Q27560760" ∷ "wd:Q65085460" ∷ "wd:Q5456296" ∷ "wd:Q725377" ∷ "wd:Q49850"
          ∷ "wd:Q185598" ∷ "wd:Q111180384" ∷ "wd:Q133500522" ∷ [],
    )
    ∷ []
