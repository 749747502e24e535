-- ===== src/Authorizer.antt =====
-- controlplane/authorizer/authorizer.go: which roles may call a function, and what a caller must own.
-- `DataStore.Read` of github.com/00pauln00/niova-pumicedb is the parameter `read`: an error, a nil value
-- or a value. A Go map is an association list, its first entry of a key counts.
pub mod Defaults
pub mod Policy
pub mod Groups
pub mod Attributes
use Prim.Native.String.{◌++◌ as str_append}
use niova_mdsvc.Prelude.{
  String, Bool, true, false, ◌&&◌, ◌⊎◌, inl, inr, Option, none, some, List, [], ◌∷◌, ◌++◌, elem,
  str_eq, if◌then◌else◌,
}

pub record AbacRule : Type 0 where
  pub argument : String
  pub prefix : String

pub record FunctionPolicy : Type 0 where
  pub rbac : List String
  pub abac : List AbacRule

abbrev pub Config : Type 0
Config = List (String × FunctionPolicy)

abbrev pub lookup {ℓ} : {A : Type ℓ} → String → List (String × A) → Option A
lookup k [] = none
lookup k ((j, v) ∷ m) = if str_eq j k then some v else lookup k m

-- `getPolicy`
unfoldable pub get_policy : Config → String → Option FunctionPolicy
get_policy cfg fn = lookup fn cfg

-- The loop of `CheckRBAC` over the allowed roles.
unfoldable pub any_role : List String → List String → Bool
any_role roles [] = false
any_role roles (r ∷ rs) = if elem r roles then true else any_role roles rs

unfoldable pub check_rbac : Config → String → List String → Bool
unfolding get_policy any_role
check_rbac cfg fn roles = elim (get_policy cfg fn) [
  | none ↦ false
  | some policy ↦ any_role roles policy.rbac
]

-- `argToPrefixes[a] = append(argToPrefixes[a], p)`
unfoldable pub add_prefix :
    String → String → List (String × List String) → List (String × List String)
add_prefix a p [] = (a, p ∷ []) ∷ []
add_prefix a p ((b, ps) ∷ gs) =
    let rest = add_prefix a p gs in if str_eq b a then (b, ps ++ p ∷ []) ∷ gs else (b, ps) ∷ rest

unfoldable pub group_rules :
    List (String × List String) → List AbacRule → List (String × List String)
unfolding add_prefix
group_rules gs [] = gs
group_rules gs (r ∷ rs) = group_rules (add_prefix r.argument r.prefix gs) rs

module _ (read : String → String → String ⊎ Option String) where
  unfoldable pub prefix_query : String → String → String → String → Bool
  prefix_query prefix user value family =
      elim (read (str_append "/u/" (str_append user (str_append "/" (str_append prefix value))))
        family) [ inl e ↦ false | inr none ↦ false | inr (some res) ↦ str_eq res "1" ]

  unfoldable pub any_prefix : String → String → String → List String → Bool
  unfolding prefix_query
  any_prefix user value family [] = false
  any_prefix user value family (p ∷ ps) =
      if prefix_query p user value family then true else any_prefix user value family ps

  -- One round of the loop over the arguments.
  unfoldable pub check_argument :
      String → List (String × String) → String → String → List String → Bool
  unfolding any_prefix
  check_argument user attributes family arg prefixes = elim (lookup arg attributes) [
    | none ↦ false
    | some value ↦ any_prefix user value family prefixes
  ]

  unfoldable pub check_groups :
      String → List (String × String) → String → List (String × List String) → Bool
  unfolding check_argument
  check_groups user attributes family [] = true
  check_groups user attributes family ((arg, prefixes) ∷ gs) =
      if check_argument user attributes family arg prefixes
      then check_groups user attributes family gs
      else false

  unfoldable pub check_abac : Config → String → String → List (String × String) → String → Bool
  unfolding get_policy group_rules check_groups
  check_abac cfg fn user attributes family = elim (get_policy cfg fn) [
    | none ↦ false
    | some policy ↦ check_groups user attributes family (group_rules [] policy.abac)
  ]

  unfoldable pub authorize :
      Config → String → String → List String → List (String × String) → String → Bool
  unfolding check_rbac check_abac
  authorize cfg fn user roles attributes family =
      check_rbac cfg fn roles && check_abac cfg fn user attributes family
