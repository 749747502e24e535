-- ===== src/Authorizer/Groups.antt =====
-- The grouping of a policy's rules by argument in `CheckABAC` of controlplane/authorizer/authorizer.go.
use niova_mdsvc.Prelude.{
  String, ◌≡◌, refl, sym, ap, ◌∙◌, inl, inr, false, List, [], ◌∷◌, ◌++◌, arith, str_eq, eq_iff,
  if◌then◌else◌, Bool-cases,
}
use niova_mdsvc.Authorizer.{AbacRule, add_prefix, group_rules}

-- The prefixes of a policy's rules for one argument, in order.
unfoldable pub prefixes_for : String → List AbacRule → List String
prefixes_for a [] = []
prefixes_for a (r ∷ rs) =
    let rest = prefixes_for a rs in if str_eq r.argument a then r.prefix ∷ rest else rest

-- The group of an argument; a missing key is the empty list.
unfoldable pub prefixes_of : String → List (String × List String) → List String
prefixes_of a [] = []
prefixes_of a ((b, ps) ∷ gs) = if str_eq b a then ps else prefixes_of a gs

-- Every key comes once and has a prefix.
abbrev pub Grouped : List (String × List String) → Type 0
Grouped [] = Unit
Grouped ((b, []) ∷ gs) = ⊥
Grouped ((b, p ∷ ps) ∷ gs) = (prefixes_of b gs ≡ []) × Grouped gs

append_assoc : (xs ys zs : List String) → (xs ++ ys) ++ zs ≡ xs ++ (ys ++ zs)
append_assoc [] ys zs = refl
append_assoc (x ∷ xs) ys zs = ap (λ t. x ∷ t) (append_assoc xs ys zs)

append_nil : (xs : List String) → xs ++ [] ≡ xs
append_nil [] = refl
append_nil (x ∷ xs) = ap (λ t. x ∷ t) (append_nil xs)

prefixes_of-add_prefix :
    (a b p : String) (gs : List (String × List String))
    → prefixes_of a (add_prefix b p gs) ≡ prefixes_of a gs ++ (if str_eq b a then p ∷ [] else [])
unfolding prefixes_of add_prefix
prefixes_of-add_prefix a b p [] = refl
prefixes_of-add_prefix a b p ((c, ps) ∷ gs) = ground (
  arith,
  prefixes_of-add_prefix a b p gs,
  append_nil ps,
  append_nil (prefixes_of a gs),
  eq_iff c b,
  eq_iff c a,
  eq_iff b a,
)

Grouped-add_prefix :
    (b p : String) (gs : List (String × List String)) → Grouped gs → Grouped (add_prefix b p gs)
unfolding add_prefix
Grouped-add_prefix b p [] g = (unfold prefixes_of in refl, tt)
Grouped-add_prefix b p ((c, []) ∷ gs) g = absurd g
Grouped-add_prefix b p ((c, q ∷ ps) ∷ gs) g = elim (Bool-cases (str_eq c b)) [
  | inl e ↦ rw e g
  | inr e ↦ rw e (others e, Grouped-add_prefix b p gs g.1)
]
  where
    others : str_eq c b ≡ false → prefixes_of c (add_prefix b p gs) ≡ []
    others e = ground (arith, prefixes_of-add_prefix c b p gs, g.0, e, eq_iff c b, eq_iff b c)

pub prefixes_of-group_rules :
    (a : String) (gs : List (String × List String)) (rs : List AbacRule)
    → prefixes_of a (group_rules gs rs) ≡ prefixes_of a gs ++ prefixes_for a rs
unfolding group_rules prefixes_for
prefixes_of-group_rules a gs [] = sym (append_nil (prefixes_of a gs))
prefixes_of-group_rules a gs (r ∷ rs) =
    prefixes_of-group_rules a (add_prefix r.argument r.prefix gs) rs
    ∙ ap (λ t. t ++ prefixes_for a rs) (prefixes_of-add_prefix a r.argument r.prefix gs)
    ∙ append_assoc (prefixes_of a gs) _ (prefixes_for a rs)
    ∙ ap (λ t. prefixes_of a gs ++ t) rest
  where
    rest :
        (if str_eq r.argument a then r.prefix ∷ [] else []) ++ prefixes_for a rs
        ≡ (if str_eq r.argument a then r.prefix ∷ prefixes_for a rs else prefixes_for a rs)
    rest = ground arith

pub Grouped-group_rules :
    (gs : List (String × List String)) (rs : List AbacRule)
    → Grouped gs
    → Grouped (group_rules gs rs)
unfolding group_rules
Grouped-group_rules gs [] g = g
Grouped-group_rules gs (r ∷ rs) g =
    Grouped-group_rules (add_prefix r.argument r.prefix gs) rs
      (Grouped-add_prefix r.argument r.prefix gs g)
