-- ===== src/User/GetUser.antt =====
-- `GetUser` of controlplane/user/server/handlers.go.
use niova_mdsvc.Prelude.{
  String, Bool, not, ◌&&◌, ◌⊎◌, Option, none, some, List, [], map, Outcome, ok, err, ◌>>=◌, str_eq,
  if◌then◌else◌,
}
use niova_mdsvc.Commit.{◌/◌}
use niova_mdsvc.Authorizer.{Config}
use niova_mdsvc.Session.{TokenClaims, ClaimValue, validate_token, authorize_role}
use niova_mdsvc.Prepare.{map_error}
use niova_mdsvc.User.{User, UserResp, GetReq, user_key, deserialize_users}
use niova_mdsvc.User.Handlers.{
  RangeRead, found, key_not_found, range_read_failure, UserError, auth, read_failed,
  only_own_information, only_admins_list, guard, get_user_id_by_username,
}

module _ (decrypt : String → Option String) where
  -- The secret key of the answer, empty where it cannot be decrypted.
  unfoldable pub shown_key : String → String
  shown_key secret =
      if str_eq secret "" then "" else elim (decrypt secret) [ none ↦ "" | some plain ↦ plain ]

  unfoldable pub shown_user : User → UserResp
  unfolding shown_key
  shown_user u = record {
    username = u.username;
    user_id = u.user_id;
    secret_key = shown_key u.secret_key;
    user_role = u.user_role;
    status = u.status;
  }

module _ (verify_token : String → String ⊎ List (String × ClaimValue)) (enabled : Bool)
    (authorizer : Option Config) (range_read : String → RangeRead)
    (decrypt : String → Option String) where
  -- The ID of the user that is asked for, and none for a name that is not in the index. The empty ID stands
  -- for all users.
  unfoldable pub target : GetReq → Outcome UserError (Option String)
  target req =
      if not (str_eq req.user_id "")
      then ok (some req.user_id)
      else if not (str_eq req.username "")
      then (do
        id ← get_user_id_by_username range_read req.username
        ok (if str_eq id "" then none else some id))
      else ok (some "")

  unfoldable pub read_users : String → Outcome UserError (List UserResp)
  unfolding shown_user
  read_users prefix = elim (range_read prefix) [
    | found kvs ↦ ok (map (shown_user decrypt) (deserialize_users kvs))
    | key_not_found ↦ ok []
    | range_read_failure ↦ err read_failed
  ]

  -- The reading for a caller who may see this user, or all of them.
  unfoldable pub get_target :
      TokenClaims → GetReq → Option String → Outcome UserError (List UserResp)
  unfolding guard read_users
  get_target tc req none = ok []
  get_target tc req (some id) = do
    own ←
        guard (enabled && (not tc.is_admin && (not (str_eq id "") && not (str_eq id tc.user_id))))
          only_own_information
    one ←
        guard (enabled && (not tc.is_admin && (str_eq req.user_id "" && str_eq req.username "")))
          only_admins_list
    read_users (if str_eq id "" then user_key else user_key / id)

  unfoldable pub get_user : String → GetReq → Outcome UserError (List UserResp)
  unfolding target get_target
  get_user token req = do
    tc ← map_error auth (validate_token verify_token enabled token)
    tc' ← map_error auth (authorize_role verify_token enabled authorizer "GetUser" tc)
    id ← target req
    get_target tc req id
