-- ===== src/Tests/Users.antt =====
-- The user handlers at concrete inputs.
use native.Mathlib.Decide.{dec_lt}
use niova_mdsvc.Prelude.{
  refl, none, true, false, not, String, ◌≡◌, ◌≢◌, ◌↔◌, ◌⊎◌, inr, ◌&&◌, Option, some, List, [], ◌∷◌,
  ◌++◌, ok, str_eq, if◌then◌else◌, arith, eq_iff,
}
use niova_mdsvc.Prelude.Texts.{trim, is_space, split, cut, trim_left, trim_right}
use niova_mdsvc.Keys.{key_parts}
use niova_mdsvc.Commit.{CommitChg}
use niova_mdsvc.Populate.{set_fields}
use niova_mdsvc.Parser.{all_entities}
use niova_mdsvc.Parser.Hardware.{switch}
use niova_mdsvc.Authorizer.{check_rbac, get_policy, any_role}
use niova_mdsvc.Authorizer.Defaults.{default_policies}
use niova_mdsvc.Session.{
  TokenClaims, ClaimValue, text, flag, text_claim, flag_claim, read_claims, validate_token,
  authorize_role,
}
use niova_mdsvc.User.{
  UserReq, User, UserResp, init_user, serialize_user, user_fields, byte_text, index_key,
  user_parser, user_route, deserialize_single_user, deserialize_users, find_user,
}
use niova_mdsvc.User.Handlers.{
  RangeRead, found, key_not_found, LoginResp, guard, first_value, check_user_exists_by_id,
  get_user_id_by_username, check_unused, with_secret, or_error, handle_create_user, rename,
  handle_update_user,
}
use niova_mdsvc.User.PutUser.{
  put_user, put_user_caller, update_user, create_user, renames, old_index, existing_user, answer,
}
use niova_mdsvc.User.Login.{
  token_claims, login_claims, credentials, named_user, check_secret, issue_token, login, or_invalid,
  or_unknown,
}
use niova_mdsvc.User.Creates.{Created, put_user-Created}
use niova_mdsvc.User.Updated.{Updated, Unindexed}
use niova_mdsvc.User.Updates.{put_user-Updated}
use niova_mdsvc.Store.Table.{Values, table}
use niova_mdsvc.User.Admin.{
  AdminAnswer, create_admin_user, persist_admin, after_write, new_admin, apply_commit_changes,
}
use niova_mdsvc.User.Persisted.{Answered, create_admin_user-Answered}
use niova_mdsvc.User.GetUser.{get_user, target, get_target, read_users, shown_user, shown_key}
use niova_mdsvc.User.Views.{Sees, get_user-Sees}
use niova_mdsvc.User.Sessions.{LogsIn, login_iff, validate_token-login}
use niova_mdsvc.Tests.Stored.{pairs, bob}

-- Tokens of the admin "u0".
abbrev admin_token : String → String ⊎ List (String × ClaimValue)
admin_token token =
    inr (("userID", text "u0") ∷ ("role", text "admin") ∷ ("isAdmin", flag true) ∷ [])

-- A store that has the user "bob" only, with its index key.
abbrev only_bob : String → RangeRead
only_bob prefix =
    if str_eq prefix "u/u1"
    then found (pairs (serialize_user bob))
    else if str_eq prefix "u-idx/un/bob"
    then found (("u-idx/un/bob", "u1") ∷ [])
    else key_not_found

-- Secret keys are stored as they are.
abbrev plain : String → Option String
plain s = some s

abbrev new_user : UserReq
new_user = record {
  username = "eve";
  user_id = "";
  new_secret_key = "";
  is_update = false;
  is_admin = false;
}

eve_created :
    (out : List CommitChg × UserResp) × (put_user admin_token true
        (some default_policies)
        only_bob
        plain
        (some "u2")
        (some "k")
        "t"
        new_user
      ≡ ok out)
unfolding put_user put_user_caller create_user validate_token authorize_role read_claims text_claim
    flag_claim check_rbac get_policy any_role default_policies guard check_unused
    get_user_id_by_username first_value handle_create_user or_error with_secret init_user trim
    trim_left trim_right is_space index_key
eve_created = (_, refl)

put_user-Created_example :
    (tc : TokenClaims) × (user : User) × (secret : String) × (validate_token admin_token true "t"
      ≡ ok tc)
    × (check_rbac default_policies "PutUser" (tc.role ∷ []) ≡ true)
    × (tc.is_admin ≡ true)
    × (tc.role ≡ "admin")
    × (trim is_space "eve" ≢ "")
    × (◌≢◌ {A = String} "eve" "admin")
    × (get_user_id_by_username only_bob "eve" ≡ ok "")
    × Created plain (some "u2") (some "k") new_user user secret
    × (eve_created.0 ≡ (serialize_user user, answer user secret))
put_user-Created_example =
    put_user-Created admin_token default_policies only_bob plain (some "u2") (some "k") "t" new_user
      eve_created.0 refl eve_created.1

-- Tokens of "bob".
abbrev bob_token : String → String ⊎ List (String × ClaimValue)
bob_token token = inr (
    token_claims (
      login_claims (record {
        username = "bob";
        user_id = token;
        secret_key = "";
        user_role = "user";
        status = 0;
        is_admin = false;
      })))

abbrev renamed_bob : UserReq
renamed_bob = record {
  username = "rob";
  user_id = "u1";
  new_secret_key = "";
  is_update = true;
  is_admin = true;
}

updated :
    (out : List CommitChg × UserResp) × (put_user admin_token true
        (some default_policies)
        only_bob
        plain
        none
        none
        "t"
        renamed_bob
      ≡ ok out)
unfolding put_user put_user_caller update_user validate_token authorize_role read_claims text_claim
    flag_claim check_rbac get_policy any_role default_policies guard check_unused token_claims
    login_claims get_user_id_by_username first_value handle_update_user rename index_key
    existing_user renames check_user_exists_by_id deserialize_single_user deserialize_users
    find_user all_entities serialize_user user_fields set_fields byte_text dec_lt key_parts
    user_route user_parser switch split cut trim trim_left trim_right is_space old_index with_secret
    or_error
updated = (_, refl)

put_user-Updated_example :
    (tc : TokenClaims) × (existing user : User) × (secret : String) × (validate_token admin_token
        true "t"
      ≡ ok tc)
    × (check_rbac default_policies "PutUser" (tc.role ∷ []) ≡ true)
    × (check_user_exists_by_id only_bob "u1" ≡ ok (some existing))
    × ((tc.is_admin ≡ true) ⊎ (tc.user_id ≡ "u1"))
    × Updated admin_token default_policies only_bob plain none none renamed_bob existing user secret
    × ((tail : List CommitChg) × Unindexed admin_token default_policies only_bob plain none none
          existing user tail
        × (updated.0 ≡ (serialize_user user ++ tail, answer user secret)))
put_user-Updated_example =
    put_user-Updated admin_token default_policies only_bob plain none none "t" renamed_bob updated.0
      refl updated.1

-- Tokens that name a user by its ID, for regular users called "bob".
abbrev sign_bob : List (String × ClaimValue) → Option String
sign_bob claims =
    if str_eq (text_claim "username" claims) "bob"
      && str_eq (text_claim "role" claims) "user"
      && not (flag_claim "isAdmin" claims)
    then some (text_claim "userID" claims)
    else none

bob_token-sign_bob :
    (user : User) (token : String)
    → sign_bob (token_claims (login_claims user)) ≡ some token
    → bob_token token ≡ inr (token_claims (login_claims user))
unfolding token_claims login_claims text_claim flag_claim
bob_token-sign_bob user token h =
    ground (arith, eq_iff user.username "bob", eq_iff user.user_role "user")

abbrev bob_logged_in : LoginResp
bob_logged_in = record {
  access_token = "u1";
  user_id = "u1";
  username = "bob";
  user_role = "user";
  is_admin = false;
  expires_in = 900;
}

bob_logs_in : login only_bob plain sign_bob "bob:s3cret" ≡ ok bob_logged_in
unfolding login credentials named_user check_secret issue_token or_invalid or_unknown guard
    token_claims login_claims text_claim flag_claim get_user_id_by_username first_value index_key
    check_user_exists_by_id deserialize_single_user deserialize_users find_user all_entities
    serialize_user user_fields set_fields byte_text dec_lt key_parts user_route user_parser switch
    split cut trim trim_left trim_right is_space
bob_logs_in = refl

login_iff_example :
    (login only_bob plain sign_bob "bob:s3cret" ≡ ok bob_logged_in)
    ↔ ((user : User) × LogsIn only_bob plain sign_bob "bob:s3cret" bob_logged_in user)
login_iff_example = login_iff only_bob plain sign_bob "bob:s3cret" bob_logged_in

validate_token-login_example :
    validate_token bob_token true "u1"
    ≡ ok (record { user_id = "u1"; role = "user"; is_admin = false })
validate_token-login_example =
    validate_token-login only_bob plain sign_bob bob_token bob_token-sign_bob "bob:s3cret"
      bob_logged_in bob_logs_in (λ e. absurd (ground (arith, e, eq_iff "u1" "")))
      (λ e. absurd (ground (arith, e, eq_iff "u1" "")))
      (λ e. absurd (ground (arith, e, eq_iff "user" "")))

-- The first creation of the admin, in an empty store that finds nothing.
abbrev nothing_stored : Values
nothing_stored k = none

abbrev finds_nothing : Values → String → RangeRead
finds_nothing s prefix = key_not_found

abbrev admin_req : UserReq
admin_req = record {
  username = " admin ";
  user_id = "";
  new_secret_key = "secret";
  is_update = false;
  is_admin = true;
}

admin_created :
    (a : AdminAnswer) × (s' : Values) × (create_admin_user table finds_nothing plain plain admin_req
        nothing_stored
      ≡ (ok a, s'))
unfolding create_admin_user persist_admin after_write new_admin apply_commit_changes trim trim_left
    trim_right is_space check_user_exists_by_id serialize_user user_fields set_fields byte_text
    dec_lt index_key
admin_created = (_, _, refl)

create_admin_user-Answered_example :
    (trim is_space " admin " ≡ "admin")
    × Answered table finds_nothing plain plain nothing_stored admin_created.1 admin_req
        admin_created.0
create_admin_user-Answered_example =
    create_admin_user-Answered table finds_nothing plain plain nothing_stored admin_created.1
      admin_req admin_created.0 admin_created.2

bob_seen :
    (out : List UserResp) × (get_user bob_token true
        (some default_policies)
        only_bob
        plain
        "u1"
        (record { user_id = ""; username = "bob" })
      ≡ ok out)
unfolding get_user target get_target read_users shown_user shown_key validate_token authorize_role
    read_claims text_claim flag_claim check_rbac get_policy any_role default_policies guard
    token_claims login_claims get_user_id_by_username first_value index_key
bob_seen = (_, refl)

get_user-Sees_example :
    (tc : TokenClaims) × (validate_token bob_token true "u1" ≡ ok tc)
    × (check_rbac default_policies "GetUser" (tc.role ∷ []) ≡ true)
    × Sees bob_token default_policies only_bob plain tc bob_seen.0
get_user-Sees_example =
    get_user-Sees bob_token default_policies only_bob plain "u1"
      (record { user_id = ""; username = "bob" }) bob_seen.0 bob_seen.1
