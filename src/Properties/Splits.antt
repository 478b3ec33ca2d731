-- ===== src/Properties/Splits.antt =====
-- What the formats of values do with texts: trim, split, replace
-- (server/controllers/entities/lib/properties/properties_values_constraints.ts and
-- properties_config_builders.ts).
use Prim.Native.Char.{code}
use inventaire.Base.{
  ℕ, String, Bool, true, false, ◌&&◌, ◌||◌, Option, none, some, List, [], ◌∷◌, string_eq, nat_beq,
  if◌then◌else◌,
}
use inventaire.Texts.{is_space, trim_start, trim_end}
use inventaire.Sanitization.{strip_prefix}

unfoldable pub trim : String → String
trim s = trim_end (trim_start s)

-- `replace(/\s/g, '')`
unfoldable pub remove_spaces : String → String
remove_spaces String.[] = ""
remove_spaces (String.◌∷◌ c s) =
    let rest = remove_spaces s in if is_space c then rest else String.◌∷◌ c rest

-- What is before the first occurrence of a character, and what is between it and the next
unfoldable pub until : ℕ → String → String
until c String.[] = ""
until c (String.◌∷◌ d s) =
    let rest = until c s in if nat_beq (code d) c then "" else String.◌∷◌ d rest

unfoldable pub beyond : ℕ → String → Option String
beyond c String.[] = none
beyond c (String.◌∷◌ d s) = let rest = beyond c s in if nat_beq (code d) c then some s else rest

unfoldable pub second_part : ℕ → String → Option String
unfolding until beyond
second_part c s = elim (beyond c s) [ none ↦ none | some rest ↦ some (until c rest) ]

abbrev pub or_same : Option String → String → String
or_same none s = s
or_same (some t) _ = t

-- What follows `/profile/` up to the next one, if the text has it
unfoldable pub profile_of : String → Option String
profile_of String.[] = none
profile_of (String.◌∷◌ c s) =
    let later = profile_of s in
    elim (strip_prefix "/profile/" (String.◌∷◌ c s)) [ some rest ↦ some rest | none ↦ later ]

unfoldable pub until_profile : String → String
until_profile String.[] = ""
until_profile (String.◌∷◌ c s) =
    let rest = until_profile s in
    elim (strip_prefix "/profile/" (String.◌∷◌ c s)) [ some _ ↦ "" | none ↦ String.◌∷◌ c rest ]

abbrev pub starts_with : String → String → Bool
starts_with prefix s = elim (strip_prefix prefix s) [ some _ ↦ true | none ↦ false ]

-- Whether two characters c follow each other
unfoldable pub has_twice : ℕ → List ℕ → Bool
has_twice c [] = false
has_twice c (d ∷ s) =
    let rest = has_twice c s in (nat_beq d c && elim s [ [] ↦ false | e ∷ _ ↦ nat_beq e c ]) || rest

unfoldable pub ends_with : ℕ → List ℕ → Bool
ends_with c [] = false
ends_with c (d ∷ s) = let rest = ends_with c s in elim s [ [] ↦ nat_beq d c | _ ∷ _ ↦ rest ]
