-- ===== src/Texts/Trimming.antt =====
-- superTrim (server/lib/utils/base.ts) applied to its own results.
use Prim.Native.Char.{Char, code}
use text.Mathlib.TextEquality.{codes_equal}
use inventaire.Base.{
  String, Bool, true, false, not, ◌&&◌, nat_beq, if◌then◌else◌, ◌≡◌, refl, arith, Bool-cases, inl,
  inr,
}
use inventaire.Texts.{is_space, squeeze, trim_start, is_empty, trim_end, super_trim}

-- White space only as single spaces; the first argument tells whether a space stands before the text.
unfoldable is_squeezed : Bool → String → Bool
is_squeezed before String.[] = true
is_squeezed before (String.◌∷◌ c s) =
    let after_space = is_squeezed true s in
    let after_other = is_squeezed false s in
    if is_space c then not before && (nat_beq (code c) 32 && after_space) else after_other

space-is_space : is_space " " ≡ true
unfolding is_space
space-is_space = refl

is_squeezed-squeeze : (b : Bool) (s : String) → is_squeezed b (squeeze b s) ≡ true
unfolding is_squeezed squeeze
is_squeezed-squeeze b String.[] = refl
is_squeezed-squeeze true (String.◌∷◌ c s) = elim (Bool-cases (is_space c)) [
  | inl e ↦ rw e (is_squeezed-squeeze true s)
  | inr e ↦ rw (e, e) (is_squeezed-squeeze false s)
]
is_squeezed-squeeze false (String.◌∷◌ c s) = elim (Bool-cases (is_space c)) [
  | inl e ↦ rw (e, space-is_space) (is_squeezed-squeeze true s)
  | inr e ↦ rw (e, e) (is_squeezed-squeeze false s)
]

is_32 : (c : Char) → nat_beq (code c) 32 ≡ true → " " ≡ c
is_32 c h = codes_equal " " c (ground arith)

squeeze_id : (b : Bool) (s : String) → is_squeezed b s ≡ true → squeeze b s ≡ s
unfolding is_squeezed squeeze
squeeze_id b String.[] h = refl
squeeze_id true (String.◌∷◌ c s) h = ground (arith, squeeze_id false s)
squeeze_id false (String.◌∷◌ c s) h = ground (arith, squeeze_id false s, squeeze_id true s, is_32 c)

is_squeezed-trim_start :
    (b : Bool) (s : String) → is_squeezed b s ≡ true → is_squeezed false (trim_start s) ≡ true
unfolding is_squeezed trim_start
is_squeezed-trim_start b String.[] h = refl
is_squeezed-trim_start b (String.◌∷◌ c s) h = ground (arith, is_squeezed-trim_start true s)

is_squeezed-trim_end :
    (b : Bool) (s : String) → is_squeezed b s ≡ true → is_squeezed b (trim_end s) ≡ true
unfolding is_squeezed trim_end
is_squeezed-trim_end b String.[] h = refl
is_squeezed-trim_end b (String.◌∷◌ c s) h =
    elim (Bool-cases (is_space c && is_empty (trim_end s))) [
      | inl e ↦ rw e refl
      | inr e ↦ rw e (ground (arith, is_squeezed-trim_end true s, is_squeezed-trim_end false s))
    ]

-- No space at the start.
abbrev starts : String → Bool
starts String.[] = true
starts (String.◌∷◌ c s) = not (is_space c)

starts-trim_start : (s : String) → starts (trim_start s) ≡ true
unfolding trim_start
starts-trim_start String.[] = refl
starts-trim_start (String.◌∷◌ c s) = ground (arith, starts-trim_start s)

starts-trim_end : (s : String) → starts s ≡ true → starts (trim_end s) ≡ true
unfolding trim_end
starts-trim_end String.[] h = refl
starts-trim_end (String.◌∷◌ c s) h = ground arith

trim_start_id : (s : String) → starts s ≡ true → trim_start s ≡ s
unfolding trim_start
trim_start_id String.[] h = refl
trim_start_id (String.◌∷◌ c s) h = ground arith

trim_end_twice : (s : String) → trim_end (trim_end s) ≡ trim_end s
unfolding trim_end
trim_end_twice String.[] = refl
trim_end_twice (String.◌∷◌ c s) = ground (arith, trim_end_twice s)

-- Trimming a text twice is trimming it once.
pub super_trim_twice : (s : String) → super_trim (super_trim s) ≡ super_trim s
unfolding super_trim
super_trim_twice s =
    let q = squeeze false s in
    let squeezed =
      is_squeezed-trim_end false (trim_start q)
        (is_squeezed-trim_start false q (is_squeezed-squeeze false s)) in
    let start = starts-trim_end (trim_start q) (starts-trim_start q) in
    rw
      (
        squeeze_id false (trim_end (trim_start q)) squeezed,
        trim_start_id (trim_end (trim_start q)) start,
        trim_end_twice (trim_start q),
      )
      refl

-- The same for `trim`
pub trim_twice :
    (s : String) → trim_end (trim_start (trim_end (trim_start s))) ≡ trim_end (trim_start s)
trim_twice s =
    let start = starts-trim_end (trim_start s) (starts-trim_start s) in
    rw (trim_start_id (trim_end (trim_start s)) start, trim_end_twice (trim_start s)) refl
