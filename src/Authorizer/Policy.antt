-- ===== src/Authorizer/Policy.antt =====
-- The role check of controlplane/authorizer/authorizer.go, and whom its default policies let pass.
use niova_mdsvc.Prelude.{
  String, ◌≡◌, refl, ◌↔◌, inl, inr, true, false, ◌||◌, ◌&&◌, map, ap, ◌∙◌, some_eq, some, List, [],
  ◌∷◌, arith, All, elem, str_eq, eq_refl, str_eq→eq, Bool-cases, Option-cases,
}
use mathlib.Core.Path.{subst}
use niova_mdsvc.Authorizer.Defaults.{only_admin, admin_user, user_admin, default_policies}
use niova_mdsvc.Authorizer.{FunctionPolicy, Config, get_policy, any_role, check_rbac}

any_role_iff :
    (roles rs : List String)
    → (any_role roles rs ≡ true) ↔ ((r : String) × (elem r rs ≡ true) × (elem r roles ≡ true))
unfolding any_role
any_role_iff roles [] = ((λ h. absurd (ground (arith, h))), (λ h. absurd (ground (arith, h.1))))
any_role_iff roles (r ∷ rs) = (to (any_role_iff roles rs).0, from (any_role_iff roles rs).1)
  where
    to :
        (any_role roles rs ≡ true → (r : String) × (elem r rs ≡ true) × (elem r roles ≡ true))
        → any_role roles (r ∷ rs) ≡ true
        → (r' : String) × (elem r' (r ∷ rs) ≡ true) × (elem r' roles ≡ true)
    to rest h = elim (Bool-cases (elem r roles)) [
      | inl e ↦ (r, rw (eq_refl r) refl, e)
      | inr e ↦
          let (r', among, mine) = rest (ground (arith, h, e)) in (r', ground (arith, among), mine)
    ]

    from :
        ((r : String) × (elem r rs ≡ true) × (elem r roles ≡ true) → any_role roles rs ≡ true)
        → ((r' : String) × (elem r' (r ∷ rs) ≡ true) × (elem r' roles ≡ true))
        → any_role roles (r ∷ rs) ≡ true
    from rest (r', among, mine) = elim (Bool-cases (str_eq r r')) [
      | inl e ↦
          let mine' : elem r roles ≡ true = ap (λ r. elem r roles) (str_eq→eq r r' e) ∙ mine in
          rw mine' refl
      | inr e ↦
          let there : any_role roles rs ≡ true = rest (r', ground (arith, among, e), mine) in
          ground (arith, there)
    ]

-- CheckRBAC lets a caller pass exactly when the function is registered and one of its roles is among the
-- caller's.
pub check_rbac_iff :
    (cfg : Config) (fn : String) (roles : List String)
    → (check_rbac cfg fn roles ≡ true) ↔ (
        (policy : FunctionPolicy) × (get_policy cfg fn ≡ some policy)
        × (r : String) × (elem r policy.rbac ≡ true)
        × (elem r roles ≡ true))
unfolding check_rbac
check_rbac_iff cfg fn roles = elim (Option-cases (get_policy cfg fn)) [
  | inl e ↦ rw (e, check_rbac) ((λ h. cc), (λ h. cc))
  | inr (policy, e) ↦
      rw (e, check_rbac)
        (
          (λ h.
              let (r, among, mine) = (any_role_iff roles policy.rbac).0 h in
              (policy, refl, r, among, mine)),
          (λ (policy', same, r, among, mine).
              (any_role_iff roles policy.rbac).1
                (r, ap (λ (p : FunctionPolicy). elem r p.rbac) (some_eq same) ∙ among, mine)),
        )
]

-- The functions that a caller with the role `user` alone may call.
abbrev pub user_functions : List String
user_functions =
    "WPCreateVdev" ∷ "ReadNisdConfig" ∷ "ReadVdevsInfoWithChunkMapping" ∷ "ReadVdevInfo"
    ∷ "ReadChunk" ∷ "ReadChunkNisd" ∷ "ReadPFSCfg" ∷ "WPMountVdev" ∷ "APMountVdev" ∷ "GetUser"
    ∷ "Login" ∷ []

-- Who passes the role check of an entry of the table.
abbrev Admits : String × FunctionPolicy → Type 0
Admits (fn, policy) =
    (roles : List String)
    → any_role roles policy.rbac
      ≡ (elem "admin" roles || (elem fn user_functions && elem "user" roles))

admits_only :
    (fn : String)
    → elem fn user_functions ≡ false
    → (roles : List String)
    → any_role roles only_admin
      ≡ (elem "admin" roles || (elem fn user_functions && elem "user" roles))
unfolding any_role
admits_only fn e roles = rw e (ground arith)

admits_both :
    (fn : String)
    → elem fn user_functions ≡ true
    → (roles : List String)
    → any_role roles admin_user
      ≡ (elem "admin" roles || (elem fn user_functions && elem "user" roles))
unfolding any_role
admits_both fn e roles = rw e (ground arith)

admits_either :
    (fn : String)
    → elem fn user_functions ≡ true
    → (roles : List String)
    → any_role roles user_admin
      ≡ (elem "admin" roles || (elem fn user_functions && elem "user" roles))
unfolding any_role
admits_either fn e roles = rw e (ground arith)

default_policies-Admits : All Admits default_policies
unfolding default_policies
default_policies-Admits = (
  admits_both "WPCreateVdev" refl,
  (
    admits_only "WPNisdCfg" refl,
    (
      admits_only "ApplyNisd" refl,
      (
        admits_only "WPDeviceInfo" refl,
        (
          admits_only "WPCreatePartition" refl,
          (
            admits_only "WPPDUCfg" refl,
            (
              admits_only "WPRackCfg" refl,
              (
                admits_only "WPHyperVisorCfg" refl,
                (
                  admits_only "WPNisdArgs" refl,
                  (
                    admits_only "ReadAllNisdConfigs" refl,
                    (
                      admits_both "ReadNisdConfig" refl,
                      (
                        admits_only "RdDeviceInfo" refl,
                        (
                          admits_only "ReadPartition" refl,
                          (
                            admits_only "ReadPDUCfg" refl,
                            (
                              admits_only "ReadRackCfg" refl,
                              (
                                admits_only "ReadHyperVisorCfg" refl,
                                (
                                  admits_either "ReadVdevsInfoWithChunkMapping" refl,
                                  (
                                    admits_either "ReadVdevInfo" refl,
                                    (
                                      admits_only "APDeleteVdev" refl,
                                      (
                                        admits_only "ReadAllVdevInfo" refl,
                                        (
                                          admits_either "ReadChunk" refl,
                                          (
                                            admits_either "ReadChunkNisd" refl,
                                            (
                                              admits_only "RdNisdArgs" refl,
                                              (
                                                admits_only "WPPFSCfg" refl,
                                                (
                                                  admits_both "ReadPFSCfg" refl,
                                                  (
                                                    admits_both "WPMountVdev" refl,
                                                    (
                                                      admits_both "APMountVdev" refl,
                                                      (
                                                        admits_only "ReadAllResources" refl,
                                                        (
                                                          admits_only "PutUser" refl,
                                                          (
                                                            admits_both "GetUser" refl,
                                                            (
                                                            admits_only "CreateAdminUser" refl,
                                                            (admits_both "Login" refl, tt),
                                                            ),
                                                          ),
                                                        ),
                                                      ),
                                                    ),
                                                  ),
                                                ),
                                              ),
                                            ),
                                          ),
                                        ),
                                      ),
                                    ),
                                  ),
                                ),
                              ),
                            ),
                          ),
                        ),
                      ),
                    ),
                  ),
                ),
              ),
            ),
          ),
        ),
      ),
    ),
  ),
)

role_check-Admits :
    (m : Config) (fn : String) (roles : List String)
    → All Admits m
    → check_rbac m fn roles ≡ (
        elem fn (map (λ e. e.0) m)
        && (elem "admin" roles || (elem fn user_functions && elem "user" roles)))
unfolding check_rbac get_policy
role_check-Admits [] fn roles a = refl
role_check-Admits ((j, w) ∷ m) fn roles a = elim (Bool-cases (str_eq j fn)) [
  | inl e ↦ rw (e, check_rbac, get_policy) (subst (λ j. Admits (j, w)) (str_eq→eq j fn e) a.0 roles)
  | inr e ↦ rw (e, check_rbac, get_policy) (role_check-Admits m fn roles a.1)
]

-- Under the default policies CheckRBAC lets a caller pass exactly when the function is registered and the
-- caller is an admin, or is a user and the function is one of the eleven for users.
pub default_policies_lem :
    (fn : String) (roles : List String)
    → check_rbac default_policies fn roles ≡ (
        elem fn (map (λ e. e.0) default_policies)
        && (elem "admin" roles || (elem fn user_functions && elem "user" roles)))
default_policies_lem fn roles = role_check-Admits default_policies fn roles default_policies-Admits
