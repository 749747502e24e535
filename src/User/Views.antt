-- ===== src/User/Views.antt =====
-- What a caller of `GetUser` of controlplane/user/server/handlers.go gets to see.
use niova_mdsvc.Prelude.{
  String, ◌≡◌, sym, ap, ◌∙◌, Bool, true, false, not, ◌&&◌, ◌⊎◌, inl, inr, Option, none, some, List,
  [], ◌∷◌, Outcome, ok, err, panic, running, ◌>>=◌, first_call, str_eq, if◌then◌else◌, arith,
  eq_iff, refl, map, Bool-cases, Option-cases,
}
use niova_mdsvc.Commit.{◌/◌}
use niova_mdsvc.Authorizer.{Config, check_rbac}
use niova_mdsvc.Session.{TokenClaims, ClaimValue, validate_token, authorize_role}
use niova_mdsvc.Prepare.{map_error}
use niova_mdsvc.Prepare.Accepted.{map_error-eq-ok}
use niova_mdsvc.User.{User, UserResp, GetReq, user_key, deserialize_users}
use niova_mdsvc.User.Handlers.{
  RangeRead, found, key_not_found, range_read_failure, UserError, auth, only_own_information,
  only_admins_list, guard, get_user_id_by_username,
}
use niova_mdsvc.User.GetUser.{shown_key, shown_user, target, read_users, get_target, get_user}
use niova_mdsvc.User.Changed.{guard-eq-ok}
use niova_mdsvc.User.Callers.{role_allowed}

of_ok : {a b : List UserResp} → ◌≡◌ {A = Outcome UserError (List UserResp)} (ok a) (ok b) → a ≡ b
of_ok g = cc

failed :
    {e : UserError} {a : List UserResp}
    → ◌≡◌ {A = Outcome UserError (List UserResp)} (err e) (ok a)
    → ⊥
failed g = cc

module _ (verify_token : String → String ⊎ List (String × ClaimValue)) (cfg : Config)
    (range_read : String → RangeRead) (decrypt : String → Option String) where
  abbrev pub decrypted_or_empty : Option String → String
  decrypted_or_empty none = ""
  decrypted_or_empty (some plain) = plain

  -- A user in the answer: its fields, with its secret key decrypted, or empty where that fails.
  abbrev pub in_answer : User → UserResp
  in_answer u = record {
    username = u.username;
    user_id = u.user_id;
    secret_key = if str_eq u.secret_key "" then "" else decrypted_or_empty (decrypt u.secret_key);
    user_role = u.user_role;
    status = u.status;
  }

  -- What a caller may see: an admin anything, anyone else nothing or all users of the range read with the
  -- prefix `u/<own ID>`.
  abbrev pub Sees : TokenClaims → List UserResp → Type 0
  Sees tc out =
      (tc.is_admin ≡ true)
      ⊎ ((out ≡ [])
          ⊎ ((kvs : List (String × String)) × (range_read ("u" / tc.user_id) ≡ found kvs)
              × (out ≡ map in_answer (deserialize_users kvs))))

  shown_user-in_answer : (u : User) → shown_user decrypt u ≡ in_answer u
  unfolding shown_user shown_key
  shown_user-in_answer u = elim (Option-cases (decrypt u.secret_key)) [
    | inl e ↦ rw (e, shown_user, shown_key) refl
    | inr (plain, e) ↦ rw (e, shown_user, shown_key) refl
  ]

  map-shown_user : (us : List User) → map (shown_user decrypt) us ≡ map in_answer us
  map-shown_user [] = refl
  map-shown_user (u ∷ us) =
      ap (λ x. x ∷ map (shown_user decrypt) us) (shown_user-in_answer u)
      ∙ ap (λ xs. in_answer u ∷ xs) (map-shown_user us)

  read_users-Sees :
      (tc : TokenClaims) (out : List UserResp)
      → read_users verify_token true (some cfg) range_read decrypt ("u" / tc.user_id) ≡ ok out
      → Sees tc out
  unfolding read_users
  read_users-Sees tc out h = go (range_read ("u" / tc.user_id)) refl
    where
      go : (r : RangeRead) → range_read ("u" / tc.user_id) ≡ r → Sees tc out
      go (found kvs) e = inr (
          inr (
            kvs,
            e,
            of_ok (sym (rw (e, read_users) at h)) ∙ map-shown_user (deserialize_users kvs),
          ))
      go key_not_found e = inr (inl (of_ok (sym (rw (e, read_users) at h))))
      go range_read_failure e = absurd (failed (rw (e, read_users) at h))

  -- Without an ID the request names nobody.
  target-nobody :
      (req : GetReq) (id : String)
      → target verify_token true (some cfg) range_read decrypt req ≡ ok (some id)
      → str_eq id "" ≡ true
      → (str_eq req.user_id "" && str_eq req.username "") ≡ true
  unfolding target
  target-nobody req id h e = elim (Bool-cases (str_eq req.user_id "")) [
    | inr set ↦ absurd (ground (arith, set, h, e, eq_iff req.user_id "", eq_iff id ""))
    | inl unset ↦ elim (Bool-cases (str_eq req.username "")) [
      | inl no_name ↦ ground (arith, unset, no_name)
      | inr name ↦
          absurd
            (nobody (get_user_id_by_username range_read req.username) (rw name at (rw unset at h)))
    ]
  ]
    where
      nobody :
          (r : Outcome UserError String)
          → (r >>= λ i. ok (if str_eq i "" then none else some i)) ≡ ok (some id)
          → ⊥
      nobody (ok i) g = elim (Bool-cases (str_eq i "")) [
        | inl t ↦ absurd (ground (arith, t, g))
        | inr t ↦ absurd (ground (arith, t, g, e, eq_iff i "", eq_iff id ""))
      ]
      nobody (err x) g = cc
      nobody panic g = cc
      nobody running g = cc

  get_target-Sees :
      (tc : TokenClaims) (req : GetReq) (o : Option String) (out : List UserResp)
      → target verify_token true (some cfg) range_read decrypt req ≡ ok o
      → get_target verify_token true (some cfg) range_read decrypt tc req o ≡ ok out
      → Sees tc out
  unfolding get_target
  get_target-Sees tc req none out t h = inr (inl (of_ok (sym h)))
  get_target-Sees tc req (some id) out t h =
      let (_, rest, own) = first_call (λ _. after_own) (guard not_own only_own_information) out h in
      let (_, rest', one) = first_call (λ _. reading) (guard lists only_admins_list) out rest in
      seen (Bool-cases tc.is_admin) (Bool-cases (str_eq id "")) (guard-eq-ok _ _ own)
        (guard-eq-ok _ _ one) rest'
    where
      not_own : Bool
      not_own = true && (not tc.is_admin && (not (str_eq id "") && not (str_eq id tc.user_id)))

      lists : Bool
      lists = true && (not tc.is_admin && (str_eq req.user_id "" && str_eq req.username ""))

      reading : Outcome UserError (List UserResp)
      reading =
          read_users verify_token true (some cfg) range_read decrypt
            (if str_eq id "" then user_key else user_key / id)

      after_own : Outcome UserError (List UserResp)
      after_own = guard lists only_admins_list >>= λ _. reading

      seen :
          (tc.is_admin ≡ true) ⊎ (tc.is_admin ≡ false)
          → (str_eq id "" ≡ true) ⊎ (str_eq id "" ≡ false)
          → not_own ≡ false
          → lists ≡ false
          → reading ≡ ok out
          → Sees tc out
      seen (inl admin) b own one r = inl admin
      seen (inr user) (inl nobody) own one r =
          absurd (ground (arith, user, one, target-nobody req id t nobody))
      seen (inr user) (inr some_id) own one r =
          let mine : id ≡ tc.user_id = ground (arith, user, some_id, own, eq_iff id tc.user_id) in
          read_users-Sees tc out (
            ap
              (λ (i : String).
                read_users verify_token true (some cfg) range_read decrypt (user_key / i))
              (sym mine)
            ∙ (rw some_id at r))

  -- With authentication enabled and an authorizer, a successful GetUser is for a caller with a valid token
  -- whose role may call it; unless the token is an admin's, the answer is empty or has every user, with
  -- its decrypted secret key, that the range read with the prefix `u/<own ID>` gives, which are also users
  -- whose ID is longer and begins with the caller's.
  pub get_user-Sees :
      (token : String) (req : GetReq) (out : List UserResp)
      → get_user verify_token true (some cfg) range_read decrypt token req ≡ ok out
      → (tc : TokenClaims) × (validate_token verify_token true token ≡ ok tc)
        × (check_rbac cfg "GetUser" (tc.role ∷ []) ≡ true)
        × Sees tc out
  unfolding get_user
  get_user-Sees token req out h =
      let (tc, rest, valid) =
        first_call after_token (map_error auth (validate_token verify_token true token)) out h in
      let (tc', rest', allowed) =
        first_call (λ _. after_role tc)
          (map_error auth (authorize_role verify_token true (some cfg) "GetUser" tc)) out rest in
      let (o, done, targeted) =
        first_call (get_target verify_token true (some cfg) range_read decrypt tc req)
          (target verify_token true (some cfg) range_read decrypt req) out rest' in
      (
        tc,
        map_error-eq-ok auth _ valid,
        role_allowed verify_token cfg "GetUser" tc tc' (map_error-eq-ok auth _ allowed),
        get_target-Sees tc req o out targeted done,
      )
    where
      after_role : TokenClaims → Outcome UserError (List UserResp)
      after_role tc =
          target verify_token true (some cfg) range_read decrypt req
          >>= get_target verify_token true (some cfg) range_read decrypt tc req

      after_token : TokenClaims → Outcome UserError (List UserResp)
      after_token tc =
          map_error auth (authorize_role verify_token true (some cfg) "GetUser" tc) >>= λ _.
          after_role tc
