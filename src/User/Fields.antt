-- ===== src/User/Fields.antt =====
-- One field of a user that controlplane/user/server/deserializer.go parses.
use Prim.Native.Char.{char, code, nul}
use mathlib.Core.Logic.{dif_pos}
use native.Mathlib.Decide.{dec_lt}
use native.Mathlib.Bridge.{le_prop}
use text.Mathlib.TextLemmas.{cons≢nil}
use niova_mdsvc.Prelude.{
  ℕ, ◌<◌, String, ◌≡◌, ◌≢◌, refl, Bool, true, false, not, ◌&&◌, inl, inr, some, List, [], ◌∷◌,
  length, get_or, ltb, str_eq, arith, Bool-cases,
}
use niova_mdsvc.Authorizer.{lookup}
use niova_mdsvc.Parser.Grouping.{parse_all}
use niova_mdsvc.Parser.Fields.{Step}
use niova_mdsvc.Parser.Stored.{Stored, kept, field-eq, text-eq}
use niova_mdsvc.Parser.Switch.{Single, Fits, proj-switch, untouched, same_name}
use niova_mdsvc.User.{
  User, user_type, admin_username, code-IsScalar, byte_char, byte_text, first_byte, user_fields,
  user_parser, user_route,
}

-- A key of a user's field `f`.
abbrev pub is_user_field : String → List String → Bool
is_user_field f parts = not (ltb (length parts) 3) && str_eq (get_or parts 2 "") f

abbrev pub user_cases : User → String → List (String × User)
user_cases u v =
    ("sk", record u { secret_key = v })
    ∷ ("un", record u { username = v })
    ∷ ("st", record u { status = first_byte v u.status })
    ∷ ("ut", record u { is_admin = str_eq v admin_username })
    ∷ ("ur", record u { user_role = v })
    ∷ []

single : (t : String) → Single (λ f. str_eq t f)
single t f g h k = same_name t f g h k

user_step :
    {A : Type 0} (proj : User → A) (name : String) (upd : A → String → A)
    → ((u : User) (v : String) → Fits proj name (upd (proj u) v) (proj u) (user_cases u v))
    → Step user_parser proj (is_user_field name) upd
unfolding user_parser
user_step proj name upd fits u parts v = elim (Bool-cases (ltb (length parts) 3)) [
  | inl short ↦ rw short refl
  | inr long ↦ rw long (
      proj-switch proj name (upd (proj u) v) (proj u) (λ f. str_eq (get_or parts 2 "") f)
        (single (get_or parts 2 "")) (user_cases u v) u (fits u v) refl)
]

pub user_id_kept :
    (u : User) (parts : List String) (v : String)
    → (user_parser.parse_field u parts v).user_id ≡ u.user_id
unfolding user_parser
user_id_kept u parts v = elim (Bool-cases (ltb (length parts) 3)) [
  | inl short ↦ rw short refl
  | inr long ↦ rw long (
      untouched (λ (t : User). t.user_id) "" u.user_id u.user_id (λ f. str_eq (get_or parts 2 "") f)
        (single (get_or parts 2 "")) (user_cases u v) u (refl, (refl, (refl, (refl, (refl, tt)))))
        refl)
]

code-byte_char : (n : ℕ) → n < 55296 → code (byte_char n) ≡ n
unfolding byte_char
code-byte_char n h =
    rw (dif_pos (dec_lt n 55296) le_prop h (λ p. char n (code-IsScalar n p)) (λ _. nul)) refl

full_status : (n : ℕ) → byte_text n ≢ ""
unfolding byte_text
full_status n = cons≢nil

pub full_kind : (b : Bool) → user_type b ≢ ""
full_kind true = cons≢nil
full_kind false = cons≢nil

read_status : (n c : ℕ) → n < 256 → first_byte (byte_text n) c ≡ n
unfolding first_byte byte_text
read_status n c h = code-byte_char n (omega arith)

read_kind : (b : Bool) → str_eq (user_type b) admin_username ≡ b
read_kind true = refl
read_kind false = refl

-- The user that the keys of a user's fields are parsed into, in whatever order they come.
module _ (user : User) (is_status : user.status < 256) (keys : List (List String × String))
    (st : Stored (λ f. "u" ∷ user.user_id ∷ f ∷ []) (user_fields user) keys) where
  user_text :
      (proj : User → String) (name w : String)
      → ((u : User) (v : String) → Fits proj name v (proj u) (user_cases u v))
      → lookup name (user_fields user) ≡ some w
      → (e : User) → proj e ≡ ""
      → proj (parse_all user_parser user_route e keys) ≡ w
  unfolding user_fields
  user_text proj name w fits h e new =
      text-eq user_parser user_route (λ f. "u" ∷ user.user_id ∷ f ∷ []) (user_fields user) keys st
        refl proj (is_user_field name) (user_step proj name (λ old v. v) fits) name (λ g. refl) w e
        h new

  user_status : (e : User) → (parse_all user_parser user_route e keys).status ≡ user.status
  unfolding user_fields
  user_status e =
      field-eq user_parser user_route (λ f. "u" ∷ user.user_id ∷ f ∷ []) (user_fields user) keys st
        refl (λ u. u.status) (is_user_field "st") (λ old v. first_byte v old)
        (user_step (λ u. u.status) "st" (λ old v. first_byte v old)
          (λ u v. (refl, (refl, (refl, (refl, (refl, tt)))))))
        "st" (λ g. refl) (byte_text user.status) user.status e refl
        (λ c. read_status user.status c is_status) (inl (full_status user.status))

  user_kind : (e : User) → (parse_all user_parser user_route e keys).is_admin ≡ user.is_admin
  unfolding user_fields
  user_kind e =
      field-eq user_parser user_route (λ f. "u" ∷ user.user_id ∷ f ∷ []) (user_fields user) keys st
        refl (λ u. u.is_admin) (is_user_field "ut") (λ old v. str_eq v admin_username)
        (user_step (λ u. u.is_admin) "ut" (λ old v. str_eq v admin_username)
          (λ u v. (refl, (refl, (refl, (refl, (refl, tt)))))))
        "ut" (λ g. refl) (user_type user.is_admin) user.is_admin e refl
        (λ c. read_kind user.is_admin) (inl (full_kind user.is_admin))

  pub user_back : parse_all user_parser user_route (user_parser.new_entity user.user_id) keys ≡ user
  unfolding user_parser user_fields
  user_back = λ i. record {
    username =
        user_text (λ u. u.username) "un" user.username
          (λ u v. (refl, (refl, (refl, (refl, (refl, tt)))))) refl new refl i;
    user_id = kept user_parser user_route (λ (u : User). u.user_id) user_id_kept keys new i;
    secret_key =
        user_text (λ u. u.secret_key) "sk" user.secret_key
          (λ u v. (refl, (refl, (refl, (refl, (refl, tt)))))) refl new refl i;
    user_role =
        user_text (λ u. u.user_role) "ur" user.user_role
          (λ u v. (refl, (refl, (refl, (refl, (refl, tt)))))) refl new refl i;
    status = user_status new i;
    is_admin = user_kind new i;
  }
    where
      new : User
      new = user_parser.new_entity user.user_id
