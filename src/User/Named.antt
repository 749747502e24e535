-- ===== src/User/Named.antt =====
-- The credentials and the user of `Login` of controlplane/user/server/handlers.go: what the request has to be,
-- and which user its name stands for.
use niova_mdsvc.Prelude.{
  String, ◌≡◌, ◌≢◌, refl, sym, ap, ◌∙◌, false, not, ◌⊎◌, inl, inr, Option, some, List, Outcome, ok,
  ◌>>=◌, first_call, ok_eq, length, get_or, ◌==◌, str_eq, Bool, str_eq-ne, str_eq→eq, Bool-cases,
  none, [], ◌∷◌, err, panic, running, arith, eq_iff,
}
use niova_mdsvc.Session.{ClaimValue}
use mathlib.Core.Path.{subst}
use niova_mdsvc.Prelude.Texts.{split, trim, is_space}
use niova_mdsvc.Commit.{◌/◌}
use niova_mdsvc.User.{User, index_key, deserialize_single_user}
use niova_mdsvc.User.Handlers.{
  RangeRead, found, key_not_found, range_read_failure, UserError, first_value,
  check_user_exists_by_id, get_user_id_by_username, guard, malformed_request, empty_username,
  empty_secret_key, invalid_credentials, read_failed,
}
use niova_mdsvc.User.Login.{credentials, named_user, or_invalid, or_unknown}
use niova_mdsvc.User.Changed.{guard-eq-ok}

module _ (range_read : String → RangeRead) (decrypt : String → Option String)
    (sign : List (String × ClaimValue) → Option String) where
  -- The ID is the first value that is not empty.
  abbrev pub FirstValue : String → List (String × String) → Type 0
  FirstValue id [] = ⊥
  FirstValue id ((k, v) ∷ kvs) = ((v ≢ "") × (id ≡ v)) ⊎ ((v ≡ "") × FirstValue id kvs)

  first_value-FirstValue :
      (id : String) (kvs : List (String × String))
      → first_value kvs ≡ id
      → id ≢ ""
      → FirstValue id kvs
  unfolding first_value
  first_value-FirstValue id [] h some_id = absurd (some_id (sym h))
  first_value-FirstValue id ((k, v) ∷ kvs) h some_id = elim (Bool-cases (str_eq v "")) [
    | inl e ↦
        inr (str_eq→eq v "" e, first_value-FirstValue id kvs (rw (e, first_value) at h) some_id)
    | inr e ↦
        inl (λ none. absurd (ground (arith, e, none, eq_iff v "")), sym (rw (e, first_value) at h))
  ]

  FirstValue-first_value :
      (id : String) (kvs : List (String × String))
      → FirstValue id kvs
      → (first_value kvs ≡ id) × (id ≢ "")
  unfolding first_value
  FirstValue-first_value id [] f = absurd f
  FirstValue-first_value id ((k, v) ∷ kvs) (inl (some_v, e)) =
      (rw (str_eq-ne v "" some_v, first_value) (sym e), λ none. some_v (sym e ∙ none))
  FirstValue-first_value id ((k, v) ∷ kvs) (inr (e, f)) =
      let (value, some_id) = FirstValue-first_value id kvs f in (rw (e, first_value) value, some_id)

  -- Both parts of the request.
  abbrev pub Given : List String → String × String → Type 0
  Given parts given =
      (parts ≡ given.0 ∷ given.1 ∷ []) × (trim is_space given.0 ≢ "") × (trim is_space given.1 ≢ "")

  abbrev pub parsed : List String → Outcome UserError (String × String)
  parsed parts = guard (not (length parts == 2)) malformed_request >>= λ _.
      guard (str_eq (trim is_space (get_or parts 0 "")) "") empty_username >>= λ _.
      guard (str_eq (trim is_space (get_or parts 1 "")) "") empty_secret_key >>= λ _.
      ok (get_or parts 0 "", get_or parts 1 "")

  parsed-eq-ok :
      (parts : List String) (given : String × String) → parsed parts ≡ ok given → Given parts given
  unfolding guard
  parsed-eq-ok [] given h = cc
  parsed-eq-ok (x ∷ []) given h = cc
  parsed-eq-ok (x ∷ y ∷ z ∷ zs) given h = absurd (ground (arith, h))
  parsed-eq-ok (x ∷ y ∷ []) given h = elim (Bool-cases (str_eq (trim is_space x) "")) [
    | inl e ↦ absurd (ground (arith, e, h))
    | inr e ↦ elim (Bool-cases (str_eq (trim is_space y) "")) [
      | inl e' ↦ absurd (ground (arith, e, e', h))
      | inr e' ↦
          let same : (x, y) ≡ given =
            ok_eq (parsed (x ∷ y ∷ [])) (rw (e, parsed) (rw (e', parsed) refl)) h in
          subst (Given (x ∷ y ∷ [])) same (
            refl,
            λ none. absurd (ground (arith, e, none, eq_iff (trim is_space x) "")),
            λ none. absurd (ground (arith, e', none, eq_iff (trim is_space y) "")),
          )
    ]
  ]

  pub credentials-eq-ok :
      (id : String) (given : String × String)
      → credentials id ≡ ok given
      → Given (split b':' id) given
  unfolding credentials
  credentials-eq-ok id given h = parsed-eq-ok (split b':' id) given h

  pub Given-credentials :
      (id : String) (given : String × String)
      → Given (split b':' id) given
      → credentials id ≡ ok given
  unfolding credentials guard
  Given-credentials id given (e, name, secret) =
      ap parsed e ∙ rw (str_eq-ne _ "" name, parsed) (rw (str_eq-ne _ "" secret, parsed) refl)

  or_invalid-eq-ok : {A : Type 0} (r : Outcome UserError A) {a : A} → or_invalid r ≡ ok a → r ≡ ok a
  unfolding or_invalid
  or_invalid-eq-ok (ok a) h = h
  or_invalid-eq-ok (err e) h = cc
  or_invalid-eq-ok panic h = cc
  or_invalid-eq-ok running h = cc

  or_unknown-eq-ok : (o : Option User) {u : User} → or_unknown o ≡ ok u → o ≡ some u
  unfolding or_unknown
  or_unknown-eq-ok none h = cc
  or_unknown-eq-ok (some u) h = cc

  -- What the index gives for a name.
  abbrev pub Indexed : String → String → Type 0
  Indexed name id =
      (kvs : List (String × String)) × (range_read ("u-idx" / "un" / name) ≡ found kvs)
      × FirstValue id kvs

  get_user_id_by_username-eq-ok :
      (name id : String)
      → get_user_id_by_username range_read name ≡ ok id
      → id ≢ ""
      → Indexed name id
  unfolding get_user_id_by_username index_key
  get_user_id_by_username-eq-ok name id h some_id = elim (Bool-cases (str_eq name "")) [
    | inl e ↦ absurd (some_id (sym (ok_eq _ (rw (e, get_user_id_by_username) refl) h)))
    | inr e ↦ go (range_read ("u-idx" / "un" / name)) refl (rw (e, get_user_id_by_username) at h)
  ]
    where
      read : RangeRead → Outcome UserError String
      read r = elim r [
        | found kvs ↦ ok (first_value kvs)
        | key_not_found ↦ ok ""
        | range_read_failure ↦ err read_failed
      ]

      go :
          (r : RangeRead)
          → range_read ("u-idx" / "un" / name) ≡ r
          → read (range_read ("u-idx" / "un" / name)) ≡ ok id
          → Indexed name id
      go (found kvs) e g = (kvs, e, first_value-FirstValue id kvs (ok_eq _ (ap read e) g) some_id)
      go key_not_found e g = absurd (some_id (sym (ok_eq _ (ap read e) g)))
      go range_read_failure e g =
          let clash : read range_read_failure ≡ ok id = sym (ap read e) ∙ g in cc

  -- What is stored under an ID.
  abbrev pub Stored : String → User → Type 0
  Stored id user =
      (kvs : List (String × String)) × (range_read ("u" / id) ≡ found kvs)
      × (deserialize_single_user kvs id ≡ some user)

  check_user_exists_by_id-eq-ok :
      (id : String) (user : User)
      → check_user_exists_by_id range_read id ≡ ok (some user)
      → id ≢ ""
      → Stored id user
  unfolding check_user_exists_by_id
  check_user_exists_by_id-eq-ok id user h some_id =
      go (range_read ("u" / id)) refl (rw (str_eq-ne id "" some_id, check_user_exists_by_id) at h)
    where
      read : RangeRead → Outcome UserError (Option User)
      read r = elim r [
        | found kvs ↦ ok (deserialize_single_user kvs id)
        | key_not_found ↦ ok none
        | range_read_failure ↦ err read_failed
      ]

      go :
          (r : RangeRead)
          → range_read ("u" / id) ≡ r
          → read (range_read ("u" / id)) ≡ ok (some user)
          → Stored id user
      go (found kvs) e g = (kvs, e, ok_eq _ (ap read e) g)
      go key_not_found e g =
          let clash : read key_not_found ≡ ok (some user) = sym (ap read e) ∙ g in cc
      go range_read_failure e g =
          let clash : read range_read_failure ≡ ok (some user) = sym (ap read e) ∙ g in cc

  abbrev pub after_id : String → Outcome UserError User
  after_id id = guard (str_eq id "") invalid_credentials >>= λ _.
      or_invalid (check_user_exists_by_id range_read id) >>= or_unknown

  pub named_user-eq-ok :
      (name : String) (user : User)
      → named_user range_read decrypt sign name ≡ ok user
      → (id : String) × Indexed name id × Stored id user
  unfolding named_user
  named_user-eq-ok name user h =
      let (id, rest, indexed) =
        first_call after_id (or_invalid (get_user_id_by_username range_read name)) user h in
      let (_, rest', known) =
        first_call (λ _. or_invalid (check_user_exists_by_id range_read id) >>= or_unknown)
          (guard (str_eq id "") invalid_credentials) user rest in
      let (stored, rest'', checked) =
        first_call or_unknown (or_invalid (check_user_exists_by_id range_read id)) user rest' in
      let set : str_eq id "" ≡ false = guard-eq-ok _ _ known in
      let some_id : id ≢ "" = λ e. absurd (ground (arith, set, e, eq_iff id "")) in
      (
        id,
        get_user_id_by_username-eq-ok name id (or_invalid-eq-ok _ indexed) some_id,
        check_user_exists_by_id-eq-ok id user
            (or_invalid-eq-ok _ checked ∙ ap ok (or_unknown-eq-ok stored rest'')) some_id,
      )

  pub trim_none : (name : String) → trim is_space name ≢ "" → name ≢ ""
  unfolding trim
  trim_none name h e = h (ap (trim is_space) e)

  pub named_user-ok :
      (name id : String) (user : User)
      → name ≢ ""
      → Indexed name id
      → Stored id user
      → named_user range_read decrypt sign name ≡ ok user
  unfolding named_user get_user_id_by_username index_key check_user_exists_by_id guard or_invalid
      or_unknown
  named_user-ok name id user some_name (kvs, indexed, first) (kvs', stored, single) =
      let (value, some_id) = FirstValue-first_value id kvs first in
      let named : get_user_id_by_username range_read name ≡ ok id =
        rw (str_eq-ne name "" some_name, get_user_id_by_username)
          (rw (indexed, get_user_id_by_username) (ap ok value)) in
      let found_user : check_user_exists_by_id range_read id ≡ ok (some user) =
        rw (str_eq-ne id "" some_id, check_user_exists_by_id)
          (rw (stored, check_user_exists_by_id) (ap ok single)) in
      ap (λ m. or_invalid m >>= after_id) named
      ∙ ap
          (λ (b : Bool). guard b invalid_credentials >>= λ _.
            or_invalid (check_user_exists_by_id range_read id) >>= or_unknown)
          (str_eq-ne id "" some_id)
      ∙ ap (λ m. or_invalid m >>= or_unknown) found_user
