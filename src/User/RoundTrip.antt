-- ===== src/User/RoundTrip.antt =====
-- A user that controlplane/user/server/serializer.go stores is read back by
-- controlplane/user/server/deserializer.go.
use Prim.Native.Char.{Char}
use Prim.Native.String.{◌++◌ as str_append, ◌∷◌ as str_cons, char_at}
use text.Mathlib.TextLemmas.{cons-append, cons≢nil, tail-eq_of_cons-eq}
use niova_mdsvc.Prelude.{
  ◌<◌, String, ◌≡◌, ◌≢◌, refl, sym, ap, ◌∙◌, true, false, inl, inr, Option, none, some, List, [],
  ◌∷◌, ◌++◌, map, All, length, ltb, str_eq, if◌then◌else◌, str_eq-ne, Bool-cases, ◌⊎◌,
}
use niova_mdsvc.Keys.{IsFree, key_parts, key_parts-head}
use niova_mdsvc.Commit.{CommitChg, change, ◌/◌, get_conf_key}
use niova_mdsvc.Populate.{set_fields}
use niova_mdsvc.Authorizer.{lookup}
use niova_mdsvc.Parser.{collect, all_entities}
use niova_mdsvc.Parser.Grouping.{own, lookup-collect, collect-All}
use niova_mdsvc.Parser.Fields.{Among}
use niova_mdsvc.Parser.Holds.{Holds, own-all, Holds-Stored, set_fields-FieldsOf}
use niova_mdsvc.Parser.Stored.{Stored}
use niova_mdsvc.Parser.Restored.{Plain, three_pieces, All-Among, grown-new}
use niova_mdsvc.User.{
  User, user_type, index_key, user_fields, serialize_user, user_parser, user_route,
  deserialize_single_user, deserialize_users, find_user,
}
use niova_mdsvc.User.Fields.{user_id_kept, full_kind, user_back}

-- The key of an index entry belongs to no user.
first_char : Char
first_char = char_at "u" 0

second_char : Char
second_char = char_at "-" 0

index_key-cons :
    (name : String) → (s : String) × (index_key name ≡ str_cons first_char (str_cons second_char s))
unfolding index_key first_char second_char
index_key-cons name = (
  _,
  cons-append first_char "-idx" (str_append "/" ("un" / name))
      ∙ ap (str_cons first_char) (cons-append second_char "idx" (str_append "/" ("un" / name))),
)

other_root : (x : String) (ts : List String) → str_eq x "u" ≡ false → user_route (x ∷ ts) ≡ none
unfolding user_route
other_root x ts e = elim (Bool-cases (ltb (length (x ∷ ts)) 3)) [
  | inl short ↦ rw short refl
  | inr long ↦ rw long (rw e refl)
]

index_key-skipped : (name : String) → user_route (key_parts (index_key name)) ≡ none
unfolding first_char second_char
index_key-skipped name =
    let (s, e) = index_key-cons name in
    let (t, ts, p) = key_parts-head first_char second_char s refl refl in
    ap (λ (k : String). user_route (key_parts k)) e
    ∙ ap user_route p
    ∙ other_root (str_cons first_char (str_cons second_char t)) ts
        (str_eq-ne _ "u" (λ q. cons≢nil (tail-eq_of_cons-eq q)))

-- The ID of a user as a piece of a key.
user_piece : (id f : String) → str_eq id "" ≡ false → user_route ("u" ∷ id ∷ f ∷ []) ≡ some id
unfolding user_route
user_piece id f e = rw e refl

no_route : (o : Option String) {i : String} → o ≡ none → o ≡ some i → ⊥
no_route o e h = cc

Among-append : {A : Type 0} (x : A) (xs ys : List A) → Among x (xs ++ ys) → Among x xs ⊎ Among x ys
Among-append x [] ys m = inr m
Among-append x (y ∷ xs) ys (inl e) = inl (inl e)
Among-append x (y ∷ xs) ys (inr m) = elim (Among-append x xs ys m) [
  | inl a ↦ inl (inr a)
  | inr b ↦ inr b
]

Among-append_left : {A : Type 0} (x : A) (xs ys : List A) → Among x xs → Among x (xs ++ ys)
Among-append_left x [] ys m = absurd m
Among-append_left x (y ∷ xs) ys (inl e) = inl e
Among-append_left x (y ∷ xs) ys (inr m) = inr (Among-append_left x xs ys m)

module _ (user : User) (kvs : List (String × String))
    (holds : Holds user_route user.user_id (serialize_user user) kvs) where
  only_fields :
      (k v : String)
      → Among (k, v) kvs
      → user_route (key_parts k) ≡ some user.user_id
      → Among (change k v) (set_fields ("u" / user.user_id) (user_fields user))
  unfolding serialize_user
  only_fields k v m r =
      go (Among-append (change k v) _ _ (holds.only k v m r)) (Bool-cases (str_eq user.username ""))
    where
      go :
          Among (change k v) (set_fields ("u" / user.user_id) (user_fields user))
            ⊎ Among (change k v) (
                if str_eq user.username ""
                then []
                else change (index_key user.username) user.user_id ∷ [])
          → (str_eq user.username "" ≡ true) ⊎ (str_eq user.username "" ≡ false)
          → Among (change k v) (set_fields ("u" / user.user_id) (user_fields user))
      go (inl a) b = a
      go (inr i) (inl e) = absurd (rw e at i)
      go (inr i) (inr e) = index (rw e at i)
        where
          index :
              Among (change k v) (change (index_key user.username) user.user_id ∷ [])
              → Among (change k v) (set_fields ("u" / user.user_id) (user_fields user))
          index (inl same) =
              let skipped : user_route (key_parts k) ≡ none =
                ap (λ (c : CommitChg). user_route (key_parts c.key)) (sym same)
                ∙ index_key-skipped user.username in
              absurd (no_route (user_route (key_parts k)) skipped r)
          index (inr nowhere) = absurd nowhere

  fields_hold :
      Holds user_route user.user_id (set_fields ("u" / user.user_id) (user_fields user)) kvs
  unfolding serialize_user
  fields_hold = record {
    only = only_fields;
    all = λ k v m. holds.all k v (Among-append_left (change k v) _ _ m);
  }

  module _ (not_empty : str_eq user.user_id "" ≡ false) (free : IsFree user.user_id) where
    pieces_of :
        (f : String) → Plain f → key_parts (("u" / user.user_id) / f) ≡ "u" ∷ user.user_id ∷ f ∷ []
    unfolding get_conf_key
    pieces_of f plain = three_pieces "u" user.user_id f (refl, refl) free plain

    user_fields-Stored :
        Stored
          (λ f. "u" ∷ user.user_id ∷ f ∷ [])
          (user_fields user)
          (own user_parser user_route user.user_id kvs)
    unfolding user_fields
    user_fields-Stored =
        Holds-Stored user_parser user_route user.user_id (λ f. "u" ∷ user.user_id ∷ f ∷ [])
          (λ f. ("u" / user.user_id) / f) (user_fields user)
          (set_fields ("u" / user.user_id) (user_fields user)) kvs
          (set_fields-FieldsOf ("u" / user.user_id) (user_fields user))
          (λ f v m. pieces_of f (All-Among (user_fields user) f v names m))
          (λ f. user_piece user.user_id f not_empty) fields_hold
      where
        names : All (λ (p : String × String). Plain p.0) (user_fields user)
        names = ((refl, refl), ((refl, refl), ((refl, refl), ((refl, refl), ((refl, refl), tt)))))

    -- The kind of a user is always stored.
    type_stored :
        Among
          (key_parts (("u" / user.user_id) / "ut"), user_type user.is_admin)
          (own user_parser user_route user.user_id kvs)
    unfolding user_fields
    type_stored =
        own-all user_parser user_route user.user_id kvs (("u" / user.user_id) / "ut")
          (user_type user.is_admin)
          (fields_hold.all (("u" / user.user_id) / "ut") (user_type user.is_admin) (
            (set_fields-FieldsOf ("u" / user.user_id) (user_fields user)).all "ut"
              (user_type user.is_admin) (inr (inr (inl refl))) (full_kind user.is_admin)))
          (ap user_route (pieces_of "ut" (refl, refl)) ∙ user_piece user.user_id "ut" not_empty)

find_user-lookup :
    (id : String) (m : List (String × User))
    → All (λ (p : String × User). p.1.user_id ≡ p.0) m
    → find_user id (map (λ (p : String × User). p.1) m) ≡ lookup id m
unfolding find_user
find_user-lookup id [] a = refl
find_user-lookup id ((j, u) ∷ m) a =
    ap
      (λ (k : String).
        if str_eq k id then some u else find_user id (map (λ (p : String × User). p.1) m))
      a.0
    ∙ ap (λ (r : Option User). if str_eq j id then some u else r) (find_user-lookup id m a.1)

new_id : (id : String) → (user_parser.new_entity id).user_id ≡ id
unfolding user_parser
new_id id = refl

deserialize_single_user-lookup :
    (id : String) (kvs : List (String × String))
    → deserialize_single_user kvs id ≡ lookup id (collect user_parser user_route kvs [])
unfolding deserialize_single_user deserialize_users all_entities user_parser
deserialize_single_user-lookup id kvs =
    find_user-lookup id (collect user_parser user_route kvs []) (
      collect-All user_parser user_route (λ id u. u.user_id ≡ id) new_id
        (λ id u parts v e. user_id_kept u parts v ∙ e) kvs [] tt)

-- SerializeUser and DeserializeSingleUser are inverse: from a read result that holds the changes of a user
-- with a status below 256 and an ID without a slash that is not empty, in any order and among keys that
-- belong to other users or to none, the user is read back as it was.
pub deserialize_single_user-serialize_user :
    (user : User) (kvs : List (String × String))
    → user.status < 256
    → IsFree user.user_id
    → user.user_id ≢ ""
    → Holds user_route user.user_id (serialize_user user) kvs
    → deserialize_single_user kvs user.user_id ≡ some user
deserialize_single_user-serialize_user user kvs is_status free full holds =
    deserialize_single_user-lookup user.user_id kvs
    ∙ lookup-collect user_parser user_route user.user_id kvs []
    ∙ grown-new user_parser user_route user.user_id (own user_parser user_route user.user_id kvs)
        (key_parts (("u" / user.user_id) / "ut"), user_type user.is_admin)
        (type_stored user kvs holds not_empty free)
    ∙ ap some (
        user_back user is_status (own user_parser user_route user.user_id kvs)
          (user_fields-Stored user kvs holds not_empty free))
  where
    not_empty : str_eq user.user_id "" ≡ false
    not_empty = str_eq-ne user.user_id "" full
