-- ===== src/Authorizer/Attributes.antt =====
-- `CheckABAC` of controlplane/authorizer/authorizer.go against its meaning: the order in which Go's map
-- of arguments is walked makes no difference.
use Prim.Native.String.{◌++◌ as str_append}
use mathlib.Core.Bool.{true≢false}
use niova_mdsvc.Prelude.{
  String, ◌≡◌, refl, sym, ap, ◌∙◌, ◌↔◌, ◌⊎◌, inl, inr, true, Option, none, some, List, [], ◌∷◌,
  arith, elem, str_eq, eq_refl, str_eq→eq, Bool-cases, Option-cases, some_eq,
}
use mathlib.Core.Path.{subst}
use niova_mdsvc.Authorizer.Groups.{
  prefixes_for, prefixes_of, Grouped, Grouped-group_rules, prefixes_of-group_rules,
}
use niova_mdsvc.Authorizer.{
  FunctionPolicy, Config, lookup, get_policy, group_rules, prefix_query, any_prefix, check_argument,
  check_groups, check_abac,
}

module _ (read : String → String → String ⊎ Option String) (user : String)
    (attributes : List (String × String)) (family : String) where
  -- The key in the store under which the caller owns a value.
  abbrev pub owner_key : String → String → String
  owner_key prefix value =
      str_append "/u/" (str_append user (str_append "/" (str_append prefix value)))

  -- The caller gave a value for the argument, and its key under one of the prefixes holds "1".
  abbrev pub Owns : String → List String → Type 0
  Owns a prefixes =
      (value : String) × (lookup a attributes ≡ some value)
      × (q : String) × (elem q prefixes ≡ true)
      × (read (owner_key q value) family ≡ inr (some "1"))

  -- An argument that no rule names asks for nothing.
  abbrev pub Grants : String → List String → Type 0
  Grants a [] = Unit
  Grants a (p ∷ ps) = Owns a (p ∷ ps)

  prefix_query_iff :
      (prefix value : String)
      → (prefix_query read prefix user value family ≡ true)
        ↔ (read (owner_key prefix value) family ≡ inr (some "1"))
  unfolding prefix_query
  prefix_query_iff prefix value =
      (go (read (owner_key prefix value) family) refl, λ e. rw (e, prefix_query) refl)
    where
      go :
          (r : String ⊎ Option String)
          → read (owner_key prefix value) family ≡ r
          → prefix_query read prefix user value family ≡ true
          → read (owner_key prefix value) family ≡ inr (some "1")
      go (inl x) e h = absurd (true≢false (sym h ∙ rw (e, prefix_query) refl))
      go (inr none) e h = absurd (true≢false (sym h ∙ rw (e, prefix_query) refl))
      go (inr (some v)) e h =
          e ∙ ap (λ v. inr (some v)) (str_eq→eq v "1" (sym (rw (e, prefix_query) refl) ∙ h))

  any_prefix_iff :
      (value : String) (ps : List String)
      → (any_prefix read user value family ps ≡ true)
        ↔ ((q : String) × (elem q ps ≡ true) × (read (owner_key q value) family ≡ inr (some "1")))
  unfolding any_prefix
  any_prefix_iff value [] = ((λ h. absurd (ground (arith, h))), (λ h. absurd (ground (arith, h.1))))
  any_prefix_iff value (p ∷ ps) = (to (any_prefix_iff value ps).0, from (any_prefix_iff value ps).1)
    where
      to :
          (any_prefix read user value family ps ≡ true
            → (q : String) × (elem q ps ≡ true)
              × (read (owner_key q value) family ≡ inr (some "1")))
          → any_prefix read user value family (p ∷ ps) ≡ true
          → (q : String) × (elem q (p ∷ ps) ≡ true)
            × (read (owner_key q value) family ≡ inr (some "1"))
      to rest h = elim (Bool-cases (prefix_query read p user value family)) [
        | inl e ↦ (p, rw (eq_refl p) refl, (prefix_query_iff p value).0 e)
        | inr e ↦
            let (q, among, owned) = rest (ground (arith, h, e)) in (q, ground (arith, among), owned)
      ]

      from :
          ((q : String) × (elem q ps ≡ true) × (read (owner_key q value) family ≡ inr (some "1"))
            → any_prefix read user value family ps ≡ true)
          → ((q : String) × (elem q (p ∷ ps) ≡ true)
              × (read (owner_key q value) family ≡ inr (some "1")))
          → any_prefix read user value family (p ∷ ps) ≡ true
      from rest (q, among, owned) = elim (Bool-cases (str_eq p q)) [
        | inl e ↦
            let hit : prefix_query read p user value family ≡ true =
              (prefix_query_iff p value).1
                (ap (λ q. read (owner_key q value) family) (str_eq→eq p q e) ∙ owned) in
            rw hit refl
        | inr e ↦
            let there : any_prefix read user value family ps ≡ true =
              rest (q, ground (arith, among, e), owned) in
            ground (arith, there)
      ]

  check_argument_iff :
      (a : String) (ps : List String)
      → (check_argument read user attributes family a ps ≡ true) ↔ Owns a ps
  unfolding check_argument
  check_argument_iff a ps = elim (Option-cases (lookup a attributes)) [
    | inl e ↦ rw (e, check_argument) ((λ h. cc), (λ h. cc))
    | inr (value, e) ↦
        rw (e, check_argument)
          (
            (λ h.
                let (q, among, owned) = (any_prefix_iff value ps).0 h in
                (value, refl, q, among, owned)),
            (λ (value', same, q, among, owned).
                (any_prefix_iff value ps).1
                  (q, among, ap (λ v. read (owner_key q v) family) (some_eq same) ∙ owned)),
          )
  ]

  check_groups-Grants :
      (gs : List (String × List String))
      → Grouped gs
      → check_groups read user attributes family gs ≡ true
      → (a : String) → Grants a (prefixes_of a gs)
  unfolding check_groups prefixes_of
  check_groups-Grants [] g h a = tt
  check_groups-Grants ((b, []) ∷ gs) g h a = absurd g
  check_groups-Grants ((b, p ∷ ps) ∷ gs) g h a = elim (Bool-cases (str_eq b a)) [
    | inl e ↦
        rw e (
          subst (λ a. Grants a (p ∷ ps)) (str_eq→eq b a e) ((check_argument_iff b (p ∷ ps)).0 head))
    | inr e ↦ rw e (check_groups-Grants gs g.1 (ground (arith, h)) a)
  ]
    where
      head : check_argument read user attributes family b (p ∷ ps) ≡ true
      head = ground (arith, h)

  Grants-check_groups :
      (gs : List (String × List String))
      → Grouped gs
      → ((a : String) → Grants a (prefixes_of a gs))
      → check_groups read user attributes family gs ≡ true
  unfolding check_groups prefixes_of
  Grants-check_groups [] g h = refl
  Grants-check_groups ((b, []) ∷ gs) g h = absurd g
  Grants-check_groups ((b, p ∷ ps) ∷ gs) g h =
      let head : check_argument read user attributes family b (p ∷ ps) ≡ true =
        (check_argument_iff b (p ∷ ps)).1 (subst (Grants b) (here b) (h b)) in
      rw head (Grants-check_groups gs g.1 λ a. tail a (h a))
    where
      here : (a : String) → prefixes_of a ((a, p ∷ ps) ∷ gs) ≡ p ∷ ps
      here a = rw (eq_refl a) refl

      tail :
          (a : String) → Grants a (prefixes_of a ((b, p ∷ ps) ∷ gs)) → Grants a (prefixes_of a gs)
      tail a granted = elim (Bool-cases (str_eq b a)) [
        | inl e ↦
            let gone : prefixes_of a gs ≡ [] =
              ap (λ a. prefixes_of a gs) (sym (str_eq→eq b a e)) ∙ g.0 in
            rw gone tt
        | inr e ↦ subst (Grants a) (rw e refl) granted
      ]

  -- CheckABAC lets a caller pass exactly when the function is registered and, for every argument that a
  -- rule of its policy names, the caller gave a value and the store holds "1" under the caller's key for
  -- one of the argument's prefixes.
  pub check_abac_iff :
      (cfg : Config) (fn : String)
      → (check_abac read cfg fn user attributes family ≡ true) ↔ (
          (policy : FunctionPolicy) × (get_policy cfg fn ≡ some policy)
          × ((a : String) → Grants a (prefixes_for a policy.abac)))
  unfolding check_abac prefixes_of
  check_abac_iff cfg fn = elim (Option-cases (get_policy cfg fn)) [
    | inl e ↦ rw (e, check_abac) ((λ h. cc), (λ h. cc))
    | inr (policy, e) ↦
        rw (e, check_abac)
          (
            (λ h. (policy, refl, λ a. to policy h a)),
            (λ (policy', same, granted). from policy (
                subst (λ (p : FunctionPolicy). (a : String) → Grants a (prefixes_for a p.abac))
                  (sym (some_eq same)) granted)),
          )
  ]
    where
      grouped : (policy : FunctionPolicy) → Grouped (group_rules [] policy.abac)
      grouped policy = Grouped-group_rules [] policy.abac tt

      same :
          (policy : FunctionPolicy) (a : String)
          → prefixes_of a (group_rules [] policy.abac) ≡ prefixes_for a policy.abac
      same policy a = prefixes_of-group_rules a [] policy.abac

      to :
          (policy : FunctionPolicy)
          → check_groups read user attributes family (group_rules [] policy.abac) ≡ true
          → (a : String) → Grants a (prefixes_for a policy.abac)
      to policy h a =
          subst (Grants a) (same policy a)
            (check_groups-Grants (group_rules [] policy.abac) (grouped policy) h a)

      from :
          (policy : FunctionPolicy)
          → ((a : String) → Grants a (prefixes_for a policy.abac))
          → check_groups read user attributes family (group_rules [] policy.abac) ≡ true
      from policy granted =
          Grants-check_groups (group_rules [] policy.abac) (grouped policy)
            λ a. subst (Grants a) (sym (same policy a)) (granted a)
