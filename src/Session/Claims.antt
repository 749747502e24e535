-- ===== src/Session/Claims.antt =====
-- Who passes `validateAndAuthorizeRBAC` of controlplane/ctlplanefuncs/server/srvctlplanefuncs.go.
use mathlib.Core.Path.{subst}
use niova_mdsvc.Prelude.{
  String, ◌≡◌, ◌≢◌, refl, sym, ap, ◌∙◌, true, false, ◌⊎◌, inl, inr, some, List, [], ◌∷◌, Outcome,
  ok, err, first_call, str_eq, arith, eq_iff, Bool-cases,
}
use niova_mdsvc.Authorizer.{Config, check_rbac}
use niova_mdsvc.Session.{
  TokenClaims, ClaimValue, AuthError, token_required, authentication_failed, missing_user_id,
  missing_role, insufficient_permissions, text_claim, flag_claim, read_claims, validate_token,
  authorize_role, validate_and_authorize_rbac,
}

ok_claims : {a b : TokenClaims} (r : Outcome AuthError TokenClaims) → r ≡ ok a → r ≡ ok b → a ≡ b
ok_claims r h k = cc

ok≢err :
    {a : TokenClaims} (e : AuthError) (r : Outcome AuthError TokenClaims) → r ≡ ok a → r ≢ err e
ok≢err e r h k = cc

not_empty : (s t : String) → t ≡ s → str_eq s "" ≡ false → t ≢ ""
not_empty s t same e empty = absurd (ground (arith, e, eq_iff s "", same, empty))

read_claims-eq-ok :
    (claims : List (String × ClaimValue)) (tc : TokenClaims)
    → read_claims claims ≡ ok tc
    → (tc.user_id ≢ "") × (tc.role ≢ "")
unfolding read_claims
read_claims-eq-ok claims tc h = elim (Bool-cases (str_eq (text_claim "userID" claims) "")) [
  | inl e ↦ absurd (ok≢err missing_user_id (read_claims claims) h (rw (e, read_claims) refl))
  | inr u ↦ elim (Bool-cases (str_eq (text_claim "role" claims) "")) [
    | inl e ↦ absurd (
        ok≢err missing_role (read_claims claims) h (rw (u, read_claims) (rw (e, read_claims) refl)))
    | inr r ↦
        let same : tc ≡ read =
          ok_claims (read_claims claims) h (rw (u, read_claims) (rw (r, read_claims) refl)) in
        (
          not_empty (text_claim "userID" claims) tc.user_id
              (ap (λ (t : TokenClaims). t.user_id) same) u,
          not_empty (text_claim "role" claims) tc.role (ap (λ (t : TokenClaims). t.role) same) r,
        )
  ]
]
  where
    read : TokenClaims
    read = record {
      user_id = text_claim "userID" claims;
      role = text_claim "role" claims;
      is_admin = flag_claim "isAdmin" claims;
    }

module _ (verify_token : String → String ⊎ List (String × ClaimValue)) where
  -- With authentication enabled and an authorizer, the claims that validateAndAuthorizeRBAC gives are
  -- those ValidateToken gives for the token; their user ID and role are not empty, and CheckRBAC lets that
  -- role pass for the function.
  pub validate_and_authorize_rbac-eq-ok :
      (cfg : Config) (token fn : String) (tc : TokenClaims)
      → validate_and_authorize_rbac verify_token true (some cfg) token fn ≡ ok tc
      → (validate_token verify_token true token ≡ ok tc)
        × (tc.user_id ≢ "")
        × (tc.role ≢ "")
        × (check_rbac cfg fn (tc.role ∷ []) ≡ true)
  unfolding validate_and_authorize_rbac validate_token authorize_role
  validate_and_authorize_rbac-eq-ok cfg token fn tc h =
      let (tc', authorized, valid) =
        first_call (authorize_role verify_token true (some cfg) fn)
          (validate_token verify_token true token) tc h in
      let (same, allowed) = role_passes tc' authorized in
      let (user, role) = token_claims tc' valid in
      subst
        (λ (t : TokenClaims).
          (validate_token verify_token true token ≡ ok t)
          × (t.user_id ≢ "")
          × (t.role ≢ "")
          × (check_rbac cfg fn (t.role ∷ []) ≡ true))
        same (valid, user, role, allowed)
    where
      role_passes :
          (tc' : TokenClaims)
          → authorize_role verify_token true (some cfg) fn tc' ≡ ok tc
          → (tc' ≡ tc) × (check_rbac cfg fn (tc'.role ∷ []) ≡ true)
      role_passes tc' a = elim (Bool-cases (check_rbac cfg fn (tc'.role ∷ []))) [
        | inl e ↦ (
          ok_claims (authorize_role verify_token true (some cfg) fn tc')
              (rw (e, authorize_role) refl) a,
          e,
        )
        | inr e ↦ absurd (
            ok≢err insufficient_permissions (authorize_role verify_token true (some cfg) fn tc') a
              (rw (e, authorize_role) refl))
      ]

      token_claims :
          (tc' : TokenClaims)
          → validate_token verify_token true token ≡ ok tc'
          → (tc'.user_id ≢ "") × (tc'.role ≢ "")
      token_claims tc' v = elim (Bool-cases (str_eq token "")) [
        | inl e ↦ absurd (
            ok≢err token_required (validate_token verify_token true token) v
              (rw (e, validate_token) refl))
        | inr e ↦ verified e (verify_token token) refl
      ]
        where
          verified :
              str_eq token "" ≡ false
              → (r : String ⊎ List (String × ClaimValue)) → verify_token token ≡ r
              → (tc'.user_id ≢ "") × (tc'.role ≢ "")
          verified e (inl x) c = absurd (
              ok≢err (authentication_failed x) (validate_token verify_token true token) v
                (rw (e, validate_token) (rw (c, validate_token) refl)))
          verified e (inr claims) c =
              read_claims-eq-ok claims tc'
                (sym (rw (e, validate_token) (rw (c, validate_token) refl)) ∙ v)
