-- ===== src/Access/Levels.antt =====
-- The access levels of server/lib/user_access_levels.ts as ranks.
use inventaire.Base.{
  ℕ, true, List, [], ◌∷◌, ◌++◌, any, includes, includes-append, filter, leb, ◌||◌, if◌then◌else◌,
  ◌≡◌, ◌∙◌, refl, sym, ap, subst, arith, Bool-cases, inl, inr,
}
use inventaire.Access.{
  Role, public, authentified, dataadmin, admin, role_eq, AccessLevel, for_public, semipublic,
  for_authentified, for_dataadmin, for_admin, level_eq, level_beq, level_beq_iff, roles_by_access,
  access_by_role, uniq_onto, levels_of, get_user_access_levels, roles_match,
}

abbrev pub rank : AccessLevel → ℕ
rank for_public = 0
rank semipublic = 0
rank for_authentified = 1
rank for_dataadmin = 2
rank for_admin = 3

abbrev pub rank_of_role : Role → ℕ
rank_of_role public = 0
rank_of_role authentified = 1
rank_of_role dataadmin = 2
rank_of_role admin = 3

abbrev pub larger : ℕ → ℕ → ℕ
larger a b = if leb a b then b else a

-- The highest rank of a list of roles
abbrev pub top : Role → List Role → ℕ
top role [] = rank_of_role role
top role (other ∷ roles) = larger (rank_of_role role) (top other roles)

includes-roles_by_access :
    (level : AccessLevel) (role : Role)
    → includes (roles_by_access level) role ≡ leb (rank level) (rank_of_role role)
unfolding includes roles_by_access
includes-roles_by_access level role = ground arith

leb-larger : (n a b : ℕ) → leb n (larger a b) ≡ (leb n a || leb n b)
leb-larger n a b = ground arith

-- A list of roles, not empty, meets the roles of a level exactly if its highest rank reaches it.
pub roles_match-top :
    (level : AccessLevel) (role : Role) (roles : List Role)
    → roles_match (role ∷ roles) (roles_by_access level) ≡ leb (rank level) (top role roles)
unfolding any
roles_match-top level role [] = rw (includes-roles_by_access level role) (ground arith)
roles_match-top level role (other ∷ roles) =
    rw
      (
        includes-roles_by_access level role,
        leb-larger (rank level) (rank_of_role role) (top other roles),
        sym (roles_match-top level other roles),
      )
      refl

includes-access_by_role :
    (role : Role) (level : AccessLevel)
    → includes (access_by_role role) level ≡ includes (roles_by_access level) role
unfolding includes access_by_role roles_by_access filter
includes-access_by_role role level = ground arith

includes-uniq_onto :
    (seen ls : List AccessLevel) (level : AccessLevel)
    → includes (uniq_onto seen ls) level ≡ (includes seen level || includes ls level)
unfolding includes uniq_onto
includes-uniq_onto seen [] level = ground arith
includes-uniq_onto seen (l ∷ ls) level = elim (Bool-cases (includes seen l)) [
  | inl e ↦
      let again : level_beq l level ≡ true → includes seen level ≡ true =
        λ h. subst (λ x. includes seen x ≡ true) ((level_beq_iff l level).0 h) e in
      rw e (includes-uniq_onto seen ls level ∙ ground (arith, again))
  | inr e ↦ rw e (
      includes-uniq_onto (seen ++ l ∷ []) ls level
      ∙ ap (λ x. x || includes ls level) (includes-append seen (l ∷ []) level)
      ∙ ground arith)
]

includes-levels_of :
    (roles : List Role) (level : AccessLevel)
    → includes (levels_of roles) level ≡ roles_match roles (roles_by_access level)
unfolding levels_of any includes
includes-levels_of [] level = refl
includes-levels_of (role ∷ roles) level =
    includes-append (access_by_role role) (levels_of roles) level
    ∙ (rw (includes-access_by_role role level, includes-levels_of roles level) refl)

append-nil_level :
    (ls : List AccessLevel) (level : AccessLevel) → includes (ls ++ []) level ≡ includes ls level
unfolding includes
append-nil_level ls level = includes-append ls [] level ∙ ground arith

-- The access levels listed for a user with some roles are those whose endpoints accept one of the
-- roles: the two tables, by level and by role, agree.
includes-get_user_access_levels :
    (roles : List Role) (level : AccessLevel)
    → includes (get_user_access_levels roles) level ≡ roles_match roles (roles_by_access level)
unfolding get_user_access_levels levels_of includes
includes-get_user_access_levels [] level = includes-levels_of [] level
includes-get_user_access_levels (role ∷ []) level =
    sym (append-nil_level (access_by_role role) level) ∙ includes-levels_of (role ∷ []) level
includes-get_user_access_levels (role ∷ other ∷ roles) level =
    includes-uniq_onto [] (levels_of (role ∷ other ∷ roles)) level
    ∙ includes-levels_of (role ∷ other ∷ roles) level
