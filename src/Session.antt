-- ===== src/Session.antt =====
-- `ValidateToken` and `validateAndAuthorizeRBAC` of
-- controlplane/ctlplanefuncs/server/srvctlplanefuncs.go. The verification of a token, its signature and
-- its expiry, is the parameter `verify_token`: an error or the claims, whose values are texts, Booleans or
-- anything else.
pub mod Claims
use niova_mdsvc.Prelude.{
  String, Bool, true, false, not, ◌||◌, ◌⊎◌, inl, inr, Option, none, some, List, [], ◌∷◌, Outcome,
  ok, err, ◌>>=◌, str_eq, if◌then◌else◌,
}
use niova_mdsvc.Authorizer.{Config, lookup, check_rbac}

pub record TokenClaims : Type 0 where
  pub user_id : String
  pub role : String
  pub is_admin : Bool

pub data ClaimValue : Type 0 where
  text : String → ClaimValue
  flag : Bool → ClaimValue
  other : ClaimValue

pub data AuthError : Type 0 where
  token_required : AuthError
  authentication_failed : String → AuthError
  missing_user_id missing_role insufficient_permissions : AuthError

-- `claims[k].(string)`, the empty text where this is no text, which the source refuses alike.
unfoldable pub text_claim : String → List (String × ClaimValue) → String
text_claim k claims = elim (lookup k claims) [ some (text s) ↦ s | _ ↦ "" ]

-- `isAdmin, _ := claims["isAdmin"].(bool)`
unfoldable pub flag_claim : String → List (String × ClaimValue) → Bool
flag_claim k claims = elim (lookup k claims) [ some (flag b) ↦ b | _ ↦ false ]

-- The claims that a token must have.
unfoldable pub read_claims : List (String × ClaimValue) → Outcome AuthError TokenClaims
unfolding text_claim flag_claim
read_claims claims =
    let user = text_claim "userID" claims in
    let role = text_claim "role" claims in
    if str_eq user ""
    then err missing_user_id
    else if str_eq role ""
    then err missing_role
    else ok (record { user_id = user; role = role; is_admin = flag_claim "isAdmin" claims })

module _ (verify_token : String → String ⊎ List (String × ClaimValue)) where
  unfoldable pub validate_token : Bool → String → Outcome AuthError TokenClaims
  unfolding read_claims
  validate_token false token =
      ok (record { user_id = "anonymous"; role = "anonymous"; is_admin = false })
  validate_token true token =
      if str_eq token "" then err token_required else elim (verify_token token) [
        | inl e ↦ err (authentication_failed e)
        | inr claims ↦ read_claims claims
      ]

  -- The test of the caller's role, where there is an authorizer and authentication is enabled.
  unfoldable pub authorize_role :
      Bool → Option Config → String → TokenClaims → Outcome AuthError TokenClaims
  authorize_role true (some cfg) fn tc =
      if check_rbac cfg fn (tc.role ∷ []) then ok tc else err insufficient_permissions
  authorize_role true none fn tc = ok tc
  authorize_role false cfg fn tc = ok tc

  unfoldable pub validate_and_authorize_rbac :
      Bool → Option Config → String → String → Outcome AuthError TokenClaims
  unfolding validate_token authorize_role
  validate_and_authorize_rbac enabled authorizer token fn = do
    tc ← validate_token enabled token
    authorize_role enabled authorizer fn tc
