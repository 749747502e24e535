-- ===== src/User/PutUser.antt =====
-- `PutUser` of controlplane/user/server/handlers.go: creating and updating a user.
use niova_mdsvc.Prelude.{
  String, Bool, false, not, ◌&&◌, ◌||◌, ◌⊎◌, Option, none, some, List, [], ◌∷◌, ◌++◌, Outcome, ok,
  err, ◌>>=◌, str_eq, if◌then◌else◌,
}
use niova_mdsvc.Prelude.Texts.{trim, is_space}
use niova_mdsvc.Commit.{CommitChg}
use niova_mdsvc.Authorizer.{Config}
use niova_mdsvc.Session.{TokenClaims, ClaimValue, validate_token, authorize_role}
use niova_mdsvc.Prepare.{map_error}
use niova_mdsvc.User.{
  UserReq, User, UserResp, status_active, admin_username, admin_user_role, serialize_user,
  serialize_username_index_delete,
}
use niova_mdsvc.User.Handlers.{
  RangeRead, UserError, auth, only_admins_create, only_own_record, user_id_required, user_not_found,
  empty_username, reserved_username, guard, check_user_exists_by_id, check_unused,
  handle_create_user, handle_update_user,
}

-- `&userlib.User{}`
abbrev pub empty_user : User
empty_user = record {
  username = "";
  user_id = "";
  secret_key = "";
  user_role = "";
  status = status_active;
  is_admin = false;
}

-- The answer, with the plain secret key where one was set.
abbrev pub answer : User → String → UserResp
answer user plain = record {
  username = user.username;
  user_id = user.user_id;
  secret_key = plain;
  user_role = user.user_role;
  status = user.status;
}

-- Whether a request changes the user's name.
unfoldable pub renames : UserReq → User → Bool
renames req existing = not (str_eq req.username "") && not (str_eq req.username existing.username)

-- The deletion of the old name's index key, if the user had a name and changes it.
unfoldable pub old_index : UserReq → User → List CommitChg
unfolding renames
old_index req existing =
    if renames req existing && not (str_eq existing.username "")
    then serialize_username_index_delete existing.username ∷ []
    else []

unfoldable pub existing_user : String → Option User → Outcome UserError User
existing_user id none = err (user_not_found id)
existing_user id (some user) = ok user

module _ (verify_token : String → String ⊎ List (String × ClaimValue)) (enabled : Bool)
    (authorizer : Option Config) (range_read : String → RangeRead)
    (encrypt : String → Option String) (new_uuid new_key : Option String) where
  -- The tests of the caller that both operations share.
  unfoldable pub put_user_caller : String → UserReq → Outcome UserError TokenClaims
  unfolding guard
  put_user_caller token req = do
    tc ← map_error auth (validate_token verify_token enabled token)
    tc' ← map_error auth (authorize_role verify_token enabled authorizer "PutUser" tc)
    may ←
        guard
          (not req.is_update
            && (enabled && (not tc.is_admin || not (str_eq tc.role admin_user_role))))
          only_admins_create
    ok tc

  unfoldable pub update_user : TokenClaims → UserReq → Outcome UserError (List CommitChg × UserResp)
  unfolding guard existing_user old_index renames
  update_user tc req = do
    has_id ← guard (str_eq req.user_id "") user_id_required
    stored ← check_user_exists_by_id range_read req.user_id
    existing ← existing_user req.user_id stored
    may ←
        guard (enabled && (not tc.is_admin && not (str_eq tc.user_id req.user_id))) only_own_record
    unused ← if renames req existing then check_unused range_read req.username else ok tt
    updated ← handle_update_user encrypt (record req { is_admin = existing.is_admin }) existing
    ok (serialize_user updated.0 ++ old_index req existing, answer updated.0 updated.1)

  unfoldable pub create_user : UserReq → Outcome UserError (List CommitChg × UserResp)
  unfolding guard
  create_user req = do
    not_empty ← guard (str_eq (trim is_space req.username) "") empty_username
    not_admin ← guard (str_eq req.username admin_username) reserved_username
    unused ← check_unused range_read req.username
    created ← handle_create_user encrypt new_uuid new_key req empty_user
    ok (serialize_user created.0, answer created.0 created.1)

  unfoldable pub put_user : String → UserReq → Outcome UserError (List CommitChg × UserResp)
  unfolding put_user_caller update_user create_user
  put_user token req = do
    tc ← put_user_caller token req
    if req.is_update then update_user tc req else create_user req
