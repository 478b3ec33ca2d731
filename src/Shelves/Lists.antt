-- ===== src/Shelves/Lists.antt =====
-- Membership in the lists that lodash makes for shelves.
use inventaire.Base.{
  String, Bool, true, false, not, List, [], ◌∷◌, ◌++◌, string_eq, ◌≡◌, refl, arith, eq_iff, ◌&&◌,
  filter, includes, includes-append, includes-without_ne, if◌then◌else◌,
}
use inventaire.Shelves.{
  uniq, union, difference, ShelvesAction, add_shelves, delete_shelves, action_function,
}

includes-uniq : (xs : List String) (a : String) → includes (uniq xs) a ≡ includes xs a
unfolding uniq includes
includes-uniq [] a = refl
includes-uniq (x ∷ xs) a =
    ground (arith, includes-uniq xs a, includes-without_ne (uniq xs) x a, eq_iff x a)

includes-difference :
    (xs ys : List String) (a : String)
    → includes (difference xs ys) a ≡ (includes xs a && not (includes ys a))
unfolding difference filter includes
includes-difference [] ys a = refl
includes-difference (x ∷ xs) ys a = ground (arith, includes-difference xs ys a, eq_iff x a)

abbrev pub adds : ShelvesAction → Bool
adds add_shelves = true
adds delete_shelves = false

pub includes-action_function :
    (action : ShelvesAction) (xs ys : List String) (a : String)
    → includes (action_function action xs ys) a
      ≡ (if includes ys a then adds action else includes xs a)
unfolding action_function union
includes-action_function add_shelves xs ys a =
    ground (arith, includes-uniq (xs ++ ys) a, includes-append xs ys a)
includes-action_function delete_shelves xs ys a = ground (arith, includes-difference xs ys a)
