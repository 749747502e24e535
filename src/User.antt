-- ===== src/User.antt =====
-- Users: the types of controlplane/user/lib/user.go, the changes that store a user of
-- controlplane/user/server/serializer.go and the reading back of controlplane/user/server/deserializer.go.
-- A stored value is a text with a character for each byte; a status is a byte.
pub mod Handlers
pub mod PutUser
pub mod Login
pub mod GetUser
pub mod Admin
pub mod Changed
pub mod Callers
pub mod Updated
pub mod Updates
pub mod Creates
pub mod Named
pub mod Sessions
pub mod Fields
pub mod RoundTrip
pub mod Persisted
pub mod Views
use Prim.Native.Nat.{compare as compare_ℕ, Ordering}
use Prim.Native.Char.{Char, char, code, nul, IsScalar}
use Prim.Native.String.{◌∷◌ as str_cons}
use mathlib.Core.Logic.{dite}
use native.Mathlib.Decide.{dec_lt}
use niova_mdsvc.Prelude.{
  ℕ, ◌<◌, String, ◌≡◌, Bool, true, false, ◌||◌, not, Option, none, some, List, [], ◌∷◌, ◌++◌,
  Outcome, ok, err, length, get_or, ltb, ◌==◌, str_eq, if◌then◌else◌, arith,
}
use niova_mdsvc.Prelude.Texts.{trim, is_space}
use niova_mdsvc.Commit.{CommitChg, change, delete, ◌/◌}
use niova_mdsvc.Populate.{set_fields}
use niova_mdsvc.Parser.{ParseEntity, all_entities}
use niova_mdsvc.Parser.Hardware.{switch}

pub record UserReq : Type 0 where
  pub username : String
  pub user_id : String
  pub new_secret_key : String
  pub is_update : Bool
  pub is_admin : Bool

pub record User : Type 0 where
  pub username : String
  pub user_id : String
  pub secret_key : String
  pub user_role : String
  pub status : ℕ
  pub is_admin : Bool

-- The answers of PutUser, GetUser and CreateAdminUser; an answer with an error is an `err` here.
pub record UserResp : Type 0 where
  pub username : String
  pub user_id : String
  pub secret_key : String
  pub user_role : String
  pub status : ℕ

pub record GetReq : Type 0 where
  pub user_id : String
  pub username : String

abbrev pub status_active : ℕ
status_active = 0

abbrev pub admin_username : String
admin_username = "admin"

abbrev pub default_user_role : String
default_user_role = "user"

abbrev pub admin_user_role : String
admin_user_role = "admin"

-- `(*UserReq).Validate`
unfoldable pub validate_user_req : UserReq → Outcome (Unit {0}) (Unit {0})
validate_user_req req = if str_eq (trim is_space req.username) "" then err tt else ok tt

-- `(*User).Init`; the secret key is set later.
unfoldable pub init_user : UserReq → User → User
init_user req user = record user {
  username = req.username;
  user_id = req.user_id;
  status = status_active;
  is_admin = req.is_admin;
  user_role = if req.is_admin then admin_user_role else default_user_role;
}

pub code-IsScalar : (n : ℕ) → n < 55296 → IsScalar n
code-IsScalar n h = let e : compare_ℕ n 55296 ≡ Ordering.lt = ground arith in rw e tt

-- The character of a byte, and U+0000 for no byte.
unfoldable pub byte_char : ℕ → Char
byte_char n = dite (dec_lt n 55296) (λ h. char n (code-IsScalar n h)) (λ _. nul)

unfoldable pub byte_text : ℕ → String
unfolding byte_char
byte_text n = str_cons (byte_char n) ""

abbrev pub user_key : String
user_key = "u"

-- `/u-idx/un/<username>`
unfoldable pub index_key : String → String
index_key username = "u-idx" / "un" / username

abbrev pub user_type : Bool → String
user_type true = "admin"
user_type false = "non-admin"

-- The fields of a user; an empty name, key or role is left out.
unfoldable pub user_fields : User → List (String × String)
unfolding byte_text
user_fields user =
    ("un", user.username)
    ∷ ("sk", user.secret_key)
    ∷ ("ut", user_type user.is_admin)
    ∷ ("ur", user.user_role)
    ∷ ("st", byte_text user.status)
    ∷ []

-- `SerializeUser`
unfoldable pub serialize_user : User → List CommitChg
unfolding user_fields set_fields index_key
serialize_user user =
    set_fields (user_key / user.user_id) (user_fields user)
    ++ (if str_eq user.username "" then [] else change (index_key user.username) user.user_id ∷ [])

-- `SerializeUsernameIndexDelete`
unfoldable pub serialize_username_index_delete : String → CommitChg
unfolding index_key
serialize_username_index_delete old_username = record {
  key = index_key old_username;
  value = "";
  op = delete;
}

-- `Status(value[0])`, and no change by an empty value.
unfoldable pub first_byte : String → ℕ → ℕ
first_byte String.[] old = old
first_byte (String.◌∷◌ c s) old = code c

unfoldable pub user_parser : ParseEntity User User
unfolding first_byte
user_parser = record {
  root_key = user_key;
  new_entity = λ id. record {
    username = "";
    user_id = id;
    secret_key = "";
    user_role = "";
    status = 0;
    is_admin = false;
  };
  parse_field = λ user parts value.
      if ltb (length parts) 3
      then user
      else switch (λ f. str_eq (get_or parts 2 "") f)
          (("sk", record user { secret_key = value })
            ∷ ("un", record user { username = value })
            ∷ ("st", record user { status = first_byte value user.status })
            ∷ ("ut", record user { is_admin = str_eq value admin_username })
            ∷ ("ur", record user { user_role = value })
            ∷ [])
          user;
  get_entity = λ user. user;
}

-- The keys that `DeserializeUsers` does not skip, with the ID of the user.
unfoldable pub user_route : List String → Option String
user_route parts =
    if ltb (length parts) 3
      || not (str_eq (get_or parts 0 "") user_key)
      || str_eq (get_or parts 1 "") ""
    then none
    else some (get_or parts 1 "")

unfoldable pub deserialize_users : List (String × String) → List User
unfolding all_entities
deserialize_users read_result = all_entities user_parser user_route read_result

-- The first user with the ID.
unfoldable pub find_user : String → List User → Option User
find_user id [] = none
find_user id (u ∷ us) = if str_eq u.user_id id then some u else find_user id us

unfoldable pub deserialize_single_user : List (String × String) → String → Option User
unfolding deserialize_users find_user
deserialize_single_user read_result id = find_user id (deserialize_users read_result)
