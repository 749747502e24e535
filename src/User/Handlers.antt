-- ===== src/User/Handlers.antt =====
-- The handlers `PutUser`, `GetUser` and `Login` of controlplane/user/server/handlers.go. A range read of the
-- store, the verification and the making of tokens, new UUIDs, new secret keys and their encryption are
-- parameters; the answers are not encoded.
use niova_mdsvc.Prelude.{
  ℕ, ◌*◌, String, Bool, true, false, not, ◌&&◌, Option, none, some, List, [], ◌∷◌, Outcome, ok, err,
  ◌>>=◌, str_eq, if◌then◌else◌,
}
use niova_mdsvc.Commit.{◌/◌}
use niova_mdsvc.Session.{AuthError}
pub use niova_mdsvc.Store.{RangeRead, found, key_not_found, range_read_failure}
use niova_mdsvc.User.{
  UserReq, User, admin_username, user_key, index_key, init_user, deserialize_single_user,
}

pub data UserError : Type 0 where
  auth : AuthError → UserError
  only_admins_create only_own_record only_own_information only_admins_list : UserError
  user_id_required read_failed encryption_failed uuid_failed secret_key_failed : UserError
  user_not_found username_exists : String → UserError
  empty_username reserved_username admin_keeps_username only_admins_change_key : UserError
  malformed_request empty_secret_key invalid_credentials account_not_available : UserError
  decryption_failed token_failed : UserError

pub record LoginResp : Type 0 where
  pub access_token : String
  pub user_id : String
  pub username : String
  pub user_role : String
  pub is_admin : Bool
  pub expires_in : ℕ

abbrev pub default_admin_secret_key : String
default_admin_secret_key = "niova-admin-secret-key"

-- Fifteen minutes, in seconds.
abbrev pub default_token_ttl : ℕ
default_token_ttl = 15 * 60

unfoldable pub guard : Bool → UserError → Outcome UserError (Unit {0})
guard true e = err e
guard false e = ok tt

-- The first value that is not empty.
unfoldable pub first_value : List (String × String) → String
first_value [] = ""
first_value ((k, v) ∷ kvs) = let rest = first_value kvs in if str_eq v "" then rest else v

module _ (range_read : String → RangeRead) where
  unfoldable pub check_user_exists_by_id : String → Outcome UserError (Option User)
  check_user_exists_by_id id = if str_eq id "" then ok none else elim (range_read (user_key / id)) [
    | found kvs ↦ ok (deserialize_single_user kvs id)
    | key_not_found ↦ ok none
    | range_read_failure ↦ err read_failed
  ]

  unfoldable pub get_user_id_by_username : String → Outcome UserError String
  unfolding first_value
  get_user_id_by_username name =
      if str_eq name "" then ok "" else elim (range_read (index_key name)) [
        | found kvs ↦ ok (first_value kvs)
        | key_not_found ↦ ok ""
        | range_read_failure ↦ err read_failed
      ]

  -- An error unless the name is unused.
  unfoldable pub check_unused : String → Outcome UserError (Unit {0})
  unfolding guard
  check_unused name = do
    id ← get_user_id_by_username name
    guard (not (str_eq id "")) (username_exists name)

unfoldable pub or_error : Option String → UserError → Outcome UserError String
or_error none e = err e
or_error (some s) e = ok s

module _ (encrypt : String → Option String) where
  -- The user with its encrypted secret key, and the plain one for the answer.
  unfoldable pub with_secret : String → User → Outcome UserError (User × String)
  with_secret plain user = elim (encrypt plain) [
    | none ↦ err encryption_failed
    | some secret ↦ ok (record user { secret_key = secret }, plain)
  ]

  -- `handleCreateUser`, with the outcomes of `uuid.NewV7` and of `GenerateSecretKey`.
  unfoldable pub handle_create_user :
      Option String → Option String → UserReq → User → Outcome UserError (User × String)
  unfolding init_user with_secret
  handle_create_user new_uuid new_key req user = do
    id ← if str_eq req.user_id "" then or_error new_uuid uuid_failed else ok req.user_id
    plain ← if req.is_admin then ok default_admin_secret_key else or_error new_key secret_key_failed
    with_secret plain (init_user (record req { user_id = id }) user)

  -- The renaming of `handleUpdateUser`.
  unfoldable pub rename : UserReq → User → Outcome UserError User
  rename req existing =
      if not (str_eq req.username "") && not (str_eq req.username existing.username)
      then if existing.is_admin
        then err admin_keeps_username
        else if str_eq req.username admin_username
        then err reserved_username
        else ok (record existing { username = req.username })
      else ok existing

  -- `handleUpdateUser`
  unfoldable pub handle_update_user : UserReq → User → Outcome UserError (User × String)
  unfolding rename with_secret
  handle_update_user req existing = do
    user ← rename req existing
    if str_eq req.new_secret_key ""
        then ok (user, "")
        else if not user.is_admin
        then err only_admins_change_key
        else with_secret req.new_secret_key user
