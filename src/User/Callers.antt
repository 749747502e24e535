-- ===== src/User/Callers.antt =====
-- Who may call `PutUser` of controlplane/user/server/handlers.go.
use mathlib.Core.Path.{subst}
use niova_mdsvc.Prelude.{
  String, ◌≡◌, refl, ap, ◌∙◌, Bool, true, false, not, ◌&&◌, ◌||◌, ◌⊎◌, inl, inr, Option, some, List,
  [], ◌∷◌, Outcome, ok, ◌>>=◌, first_call, str_eq, arith, eq_iff, Bool-cases,
}
use niova_mdsvc.Authorizer.{Config, check_rbac}
use niova_mdsvc.Session.{TokenClaims, ClaimValue, validate_token, authorize_role}
use niova_mdsvc.Prepare.{map_error}
use niova_mdsvc.Prepare.Accepted.{map_error-eq-ok}
use niova_mdsvc.User.{UserReq, admin_user_role}
use niova_mdsvc.User.Handlers.{
  RangeRead, UserError, auth, only_admins_create, guard, get_user_id_by_username, check_unused,
}
use niova_mdsvc.User.PutUser.{put_user_caller}
use niova_mdsvc.User.Changed.{guard-eq-ok}

module _ (range_read : String → RangeRead) where
  pub check_unused-eq-ok :
      (name : String) {u : Unit {0}}
      → check_unused range_read name ≡ ok u
      → get_user_id_by_username range_read name ≡ ok ""
  unfolding check_unused
  check_unused-eq-ok name {u} h =
      let (id, rest, e) =
        first_call (λ id. guard (not (str_eq id "")) (UserError.username_exists name))
          (get_user_id_by_username range_read name) u h in
      let unused : not (str_eq id "") ≡ false = guard-eq-ok _ _ rest in
      e ∙ ap ok (ground (arith, unused, eq_iff id ""))

module _ (verify_token : String → String ⊎ List (String × ClaimValue)) (cfg : Config) where
  pub role_allowed :
      (fn : String) (tc tc' : TokenClaims)
      → authorize_role verify_token true (some cfg) fn tc ≡ ok tc'
      → check_rbac cfg fn (tc.role ∷ []) ≡ true
  unfolding authorize_role
  role_allowed fn tc tc' h = elim (Bool-cases (check_rbac cfg fn (tc.role ∷ []))) [
    | inl e ↦ e
    | inr e ↦ absurd (ground (arith, h, e))
  ]

module _ (verify_token : String → String ⊎ List (String × ClaimValue)) (cfg : Config)
    (range_read : String → RangeRead) (encrypt : String → Option String)
    (new_uuid new_key : Option String) where
  may_create :
      (update admin : Bool) (role : String)
      → (not update && (true && (not admin || not (str_eq role admin_user_role)))) ≡ false
      → (update ≡ true) ⊎ ((admin ≡ true) × (role ≡ admin_user_role))
  may_create true admin role h = inl refl
  may_create false true role h = inr (refl, ground (arith, h, eq_iff role admin_user_role))
  may_create false false role h = cc

  -- A caller of PutUser has a valid token and a role that may call it, and is an admin to create a user.
  pub put_user_caller-eq-ok :
      (token : String) (req : UserReq) (tc : TokenClaims)
      → put_user_caller verify_token true (some cfg) range_read encrypt new_uuid new_key token req
        ≡ ok tc
      → (validate_token verify_token true token ≡ ok tc)
        × (check_rbac cfg "PutUser" (tc.role ∷ []) ≡ true)
        × ((req.is_update ≡ true) ⊎ ((tc.is_admin ≡ true) × (tc.role ≡ admin_user_role)))
  unfolding put_user_caller
  put_user_caller-eq-ok token req tc h =
      let (tc1, rest, passed) =
        first_call after_token (map_error auth (validate_token verify_token true token)) tc h in
      let (tc2, rest', allowed) =
        first_call (λ _. after_role tc1)
          (map_error auth (authorize_role verify_token true (some cfg) "PutUser" tc1)) tc rest in
      let (_, done, may) =
        first_call (λ _. ok tc1) (guard (denied tc1) only_admins_create) tc rest' in
      let same : tc1 ≡ tc = cc in
      (
        map_error-eq-ok auth _ passed ∙ ap ok same,
        subst (λ (t : TokenClaims). check_rbac cfg "PutUser" (t.role ∷ []) ≡ true) same
            (role_allowed verify_token cfg "PutUser" tc1 tc2 (map_error-eq-ok auth _ allowed)),
        subst
            (λ (t : TokenClaims).
              (req.is_update ≡ true) ⊎ ((t.is_admin ≡ true) × (t.role ≡ admin_user_role)))
            same (may_create req.is_update tc1.is_admin tc1.role (guard-eq-ok _ _ may)),
      )
    where
      denied : TokenClaims → Bool
      denied t =
          not req.is_update && (true && (not t.is_admin || not (str_eq t.role admin_user_role)))

      after_role : TokenClaims → Outcome UserError TokenClaims
      after_role t = guard (denied t) only_admins_create >>= λ _. ok t

      after_token : TokenClaims → Outcome UserError TokenClaims
      after_token t =
          map_error auth (authorize_role verify_token true (some cfg) "PutUser" t) >>= λ _.
          after_role t
