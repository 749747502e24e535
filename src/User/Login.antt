-- ===== src/User/Login.antt =====
-- `Login` of controlplane/user/server/handlers.go and the claims of `CreateToken` of
-- controlplane/auth/jwt/jwt-token.go. Signing is the parameter `sign`; the time of expiry is among the claims
-- that are no text.
use niova_mdsvc.Prelude.{
  String, not, Option, none, some, List, [], ◌∷◌, Outcome, ok, err, panic, running, ◌>>=◌, length,
  get_or, ◌==◌, str_eq,
}
use niova_mdsvc.Prelude.Texts.{split, trim, is_space}
use niova_mdsvc.Session.{ClaimValue, text, flag, other}
use niova_mdsvc.User.{User, status_active}
use niova_mdsvc.User.Handlers.{
  RangeRead, UserError, LoginResp, malformed_request, empty_username, empty_secret_key,
  invalid_credentials, account_not_available, decryption_failed, token_failed, default_token_ttl,
  guard, check_user_exists_by_id, get_user_id_by_username,
}

abbrev pub token_issuer : String
token_issuer = "ControlPlane"

-- The claims of `CreateToken`: those given, with issuer and expiry set.
unfoldable pub token_claims : List (String × ClaimValue) → List (String × ClaimValue)
token_claims custom = ("iss", text token_issuer) ∷ ("exp", other) ∷ custom

-- The claims that `Login` gives for a user.
unfoldable pub login_claims : User → List (String × ClaimValue)
login_claims user =
    ("userID", text user.user_id)
    ∷ ("username", text user.username)
    ∷ ("role", text user.user_role)
    ∷ ("isAdmin", flag user.is_admin)
    ∷ []

-- Any error of the lookup of a user is answered alike.
unfoldable pub or_invalid : {A : Type 0} → Outcome UserError A → Outcome UserError A
or_invalid (ok a) = ok a
or_invalid (err e) = err invalid_credentials
or_invalid panic = panic
or_invalid running = running

unfoldable pub or_unknown : Option User → Outcome UserError User
or_unknown none = err invalid_credentials
or_unknown (some user) = ok user

-- `username:secretKey`
unfoldable pub credentials : String → Outcome UserError (String × String)
unfolding guard
credentials id = do
  let parts = split b':' id
  two ← guard (not (length parts == 2)) malformed_request
  name ← guard (str_eq (trim is_space (get_or parts 0 "")) "") empty_username
  key ← guard (str_eq (trim is_space (get_or parts 1 "")) "") empty_secret_key
  ok (get_or parts 0 "", get_or parts 1 "")

module _ (range_read : String → RangeRead) (decrypt : String → Option String)
    (sign : List (String × ClaimValue) → Option String) where
  -- The user that has the name, as far as the index tells.
  unfoldable pub named_user : String → Outcome UserError User
  unfolding or_invalid or_unknown guard
  named_user name = do
    id ← or_invalid (get_user_id_by_username range_read name)
    known ← guard (str_eq id "") invalid_credentials
    stored ← or_invalid (check_user_exists_by_id range_read id)
    or_unknown stored

  -- The comparison of the secret keys.
  unfoldable pub check_secret : String → User → Outcome UserError (Unit {0})
  unfolding guard
  check_secret secret user = elim (decrypt user.secret_key) [
    | none ↦ err decryption_failed
    | some stored ↦ guard (not (str_eq stored secret)) invalid_credentials
  ]

  unfoldable pub issue_token : User → Outcome UserError LoginResp
  unfolding token_claims login_claims
  issue_token user = elim (sign (token_claims (login_claims user))) [
    | none ↦ err token_failed
    | some token ↦ ok (record {
      access_token = token;
      user_id = user.user_id;
      username = user.username;
      user_role = user.user_role;
      is_admin = user.is_admin;
      expires_in = default_token_ttl;
    })
  ]

  unfoldable pub login : String → Outcome UserError LoginResp
  unfolding credentials named_user guard check_secret issue_token
  login id = do
    given ← credentials id
    user ← named_user given.0
    active ← guard (not (user.status == status_active)) account_not_available
    same ← check_secret given.1 user
    issue_token user
