-- ===== src/Texts.antt =====
-- superTrim of server/lib/utils/base.ts.
pub mod Trimming
use Prim.Native.Char.{Char, code}
use inventaire.Base.{ℕ, String, Bool, true, false, ◌&&◌, ◌||◌, leb, nat_beq, if◌then◌else◌}

-- \s, and what `trim` removes: the white space and line ends of ECMAScript
unfoldable pub is_space_code : ℕ → Bool
is_space_code c =
    (leb 9 c && leb c 13)
    || (nat_beq c 32
        || (nat_beq c 160
            || (nat_beq c 5760
                || ((leb 8192 c && leb c 8202)
                    || (nat_beq c 8232
                        || (nat_beq c 8233
                            || (nat_beq c 8239
                                || (nat_beq c 8287 || (nat_beq c 12288 || nat_beq c 65279)))))))))

unfoldable pub is_space : Char → Bool
unfolding is_space_code
is_space c = is_space_code (code c)

-- `replaceAll(/\s+/g, ' ')`; the first argument tells whether a run has begun.
unfoldable pub squeeze : Bool → String → String
squeeze begun String.[] = ""
squeeze begun (String.◌∷◌ c s) =
    let inside = squeeze true s in
    let outside = squeeze false s in
    if is_space c then if begun then inside else String.◌∷◌ " " inside else String.◌∷◌ c outside

unfoldable pub trim_start : String → String
trim_start String.[] = ""
trim_start (String.◌∷◌ c s) = let rest = trim_start s in if is_space c then rest else String.◌∷◌ c s

abbrev pub is_empty : String → Bool
is_empty String.[] = true
is_empty (String.◌∷◌ _ _) = false

unfoldable pub trim_end : String → String
trim_end String.[] = ""
trim_end (String.◌∷◌ c s) =
    let rest = trim_end s in if is_space c && is_empty rest then "" else String.◌∷◌ c rest

unfoldable pub super_trim : String → String
super_trim s = trim_end (trim_start (squeeze false s))
