-- ===== src/User/Creates.antt =====
-- Who may create a user by `PutUser` of controlplane/user/server/handlers.go, and which user it stores.
use mathlib.Core.Path.{subst}
use niova_mdsvc.Prelude.{
  String, ◌≡◌, ◌≢◌, refl, sym, ap, ◌∙◌, Bool, true, false, ◌⊎◌, inl, inr, Option, none, some, List,
  [], ◌∷◌, Outcome, ok, ◌>>=◌, first_call, str_eq, if◌then◌else◌, arith, eq_iff, Bool-cases,
}
use niova_mdsvc.Prelude.Texts.{trim, is_space}
use niova_mdsvc.Commit.{CommitChg}
use niova_mdsvc.Authorizer.{Config, check_rbac}
use niova_mdsvc.Session.{TokenClaims, ClaimValue, validate_token}
use niova_mdsvc.User.{
  UserReq, User, UserResp, status_active, admin_username, admin_user_role, default_user_role,
  init_user, serialize_user,
}
use niova_mdsvc.User.Handlers.{
  RangeRead, UserError, empty_username, reserved_username, uuid_failed, secret_key_failed, guard,
  or_error, default_admin_secret_key, get_user_id_by_username, check_unused, with_secret,
  handle_create_user,
}
use niova_mdsvc.User.PutUser.{
  empty_user, answer, put_user_caller, update_user, create_user, put_user,
}
use niova_mdsvc.User.Changed.{guard-eq-ok, with_secret-eq-ok}
use niova_mdsvc.User.Callers.{check_unused-eq-ok, put_user_caller-eq-ok}

-- The user that a request creates: active, with the request's name and kind and the role of that kind; its
-- secret key is encrypted from `plain`, the fixed one for an admin.
pub record Created (encrypt : String → Option String) (new_uuid new_key : Option String)
    (req : UserReq) (user : User) (plain : String) : Type 0 where
  pub name : user.username ≡ req.username
  pub kind : user.is_admin ≡ req.is_admin
  pub role : user.user_role ≡ (if req.is_admin then admin_user_role else default_user_role)
  pub active : user.status ≡ status_active
  pub id :
      ((req.user_id ≢ "") × (user.user_id ≡ req.user_id))
      ⊎ ((req.user_id ≡ "") × (new_uuid ≡ some user.user_id))
  pub secret : encrypt plain ≡ some user.secret_key
  pub chosen :
      ((req.is_admin ≡ true) × (plain ≡ default_admin_secret_key))
      ⊎ ((req.is_admin ≡ false) × (new_key ≡ some plain))

or_error-eq-ok : (o : Option String) (e : UserError) {s : String} → or_error o e ≡ ok s → o ≡ some s
unfolding or_error
or_error-eq-ok none e h = cc
or_error-eq-ok (some t) e h = cc

chosen_id :
    (new_uuid : Option String) (id : String) {s : String}
    → (if str_eq id "" then or_error new_uuid uuid_failed else ok id) ≡ ok s
    → ((id ≢ "") × (s ≡ id)) ⊎ ((id ≡ "") × (new_uuid ≡ some s))
chosen_id new_uuid id {s} h = elim (Bool-cases (str_eq id "")) [
  | inl e ↦ inr (ground (arith, e, eq_iff id ""), or_error-eq-ok new_uuid uuid_failed (rw e at h))
  | inr e ↦ inl (λ q. absurd (ground (arith, e, q, eq_iff id "")), ground (arith, e, h))
]

chosen_key :
    (new_key : Option String) (admin : Bool) {s : String}
    → (if admin then ok default_admin_secret_key else or_error new_key secret_key_failed) ≡ ok s
    → ((admin ≡ true) × (s ≡ default_admin_secret_key)) ⊎ ((admin ≡ false) × (new_key ≡ some s))
chosen_key new_key true h = inl (refl, cc)
chosen_key new_key false h = inr (refl, or_error-eq-ok new_key secret_key_failed h)

handle_create_user-eq-ok :
    (encrypt : String → Option String) (new_uuid new_key : Option String) (req : UserReq)
    (r : User × String)
    → handle_create_user encrypt new_uuid new_key req empty_user ≡ ok r
    → Created encrypt new_uuid new_key req r.0 r.1
unfolding handle_create_user init_user
handle_create_user-eq-ok encrypt new_uuid new_key req r h =
    let (id, rest, an_id) =
      first_call after_id
        (if str_eq req.user_id "" then or_error new_uuid uuid_failed else ok req.user_id) r h in
    let (plain, done, a_key) =
      first_call (after_key id)
        (if req.is_admin then ok default_admin_secret_key else or_error new_key secret_key_failed) r
        rest in
    let (secret, encrypted, same) = with_secret-eq-ok encrypt plain (made id) r done in
    subst (λ (t : User × String). Created encrypt new_uuid new_key req t.0 t.1) (sym same)
      (record {
        name = refl;
        kind = refl;
        role = refl;
        active = refl;
        id = chosen_id new_uuid req.user_id an_id;
        secret = encrypted;
        chosen = chosen_key new_key req.is_admin a_key;
      })
  where
    made : String → User
    made id = init_user (record req { user_id = id }) empty_user

    after_key : String → String → Outcome UserError (User × String)
    after_key id plain = with_secret encrypt plain (made id)

    after_id : String → Outcome UserError (User × String)
    after_id id =
        (if req.is_admin then ok default_admin_secret_key else or_error new_key secret_key_failed)
        >>= after_key id

module _ (verify_token : String → String ⊎ List (String × ClaimValue)) (cfg : Config)
    (range_read : String → RangeRead) (encrypt : String → Option String)
    (new_uuid new_key : Option String) where
  create_user-eq-ok :
      (req : UserReq) (out : List CommitChg × UserResp)
      → create_user verify_token true (some cfg) range_read encrypt new_uuid new_key req ≡ ok out
      → (user : User) × (plain : String) × (trim is_space req.username ≢ "")
        × (req.username ≢ admin_username)
        × (get_user_id_by_username range_read req.username ≡ ok "")
        × Created encrypt new_uuid new_key req user plain
        × (out ≡ (serialize_user user, answer user plain))
  unfolding create_user
  create_user-eq-ok req out h =
      let (_, rest, not_empty) =
        first_call (λ _. after_name) (guard (str_eq (trim is_space req.username) "") empty_username)
          out h in
      let (_, rest1, free) =
        first_call (λ _. after_reserved)
          (guard (str_eq req.username admin_username) reserved_username) out rest in
      let (_, rest2, unused) =
        first_call (λ _. after_unused) (check_unused range_read req.username) out rest1 in
      let (r, done, made) =
        first_call finish (handle_create_user encrypt new_uuid new_key req empty_user) out rest2 in
      (
        r.0,
        r.1,
        λ e.
            absurd (
              ground (arith, e, guard-eq-ok _ _ not_empty, eq_iff (trim is_space req.username) "")),
        λ e. absurd (ground (arith, e, guard-eq-ok _ _ free, eq_iff req.username admin_username)),
        check_unused-eq-ok range_read req.username unused,
        handle_create_user-eq-ok encrypt new_uuid new_key req r made,
        cc,
      )
    where
      finish : User × String → Outcome UserError (List CommitChg × UserResp)
      finish r = ok (serialize_user r.0, answer r.0 r.1)

      after_unused : Outcome UserError (List CommitChg × UserResp)
      after_unused = handle_create_user encrypt new_uuid new_key req empty_user >>= finish

      after_reserved : Outcome UserError (List CommitChg × UserResp)
      after_reserved = check_unused range_read req.username >>= λ _. after_unused

      after_name : Outcome UserError (List CommitChg × UserResp)
      after_name =
          guard (str_eq req.username admin_username) reserved_username >>= λ _. after_reserved

  -- With authentication enabled and an authorizer, an accepted creation by PutUser is by an admin with a
  -- valid token whose role may call it; the name is not blank, not reserved and not in the index, and the
  -- changes and the answer are those of one active user with that name, the kind of the request and the
  -- role of that kind.
  pub put_user-Created :
      (token : String) (req : UserReq) (out : List CommitChg × UserResp)
      → req.is_update ≡ false
      → put_user verify_token true (some cfg) range_read encrypt new_uuid new_key token req ≡ ok out
      → (tc : TokenClaims) × (user : User) × (plain : String) × (validate_token verify_token true
            token
          ≡ ok tc)
        × (check_rbac cfg "PutUser" (tc.role ∷ []) ≡ true)
        × (tc.is_admin ≡ true)
        × (tc.role ≡ admin_user_role)
        × (trim is_space req.username ≢ "")
        × (req.username ≢ admin_username)
        × (get_user_id_by_username range_read req.username ≡ ok "")
        × Created encrypt new_uuid new_key req user plain
        × (out ≡ (serialize_user user, answer user plain))
  unfolding put_user
  put_user-Created token req out create h =
      let (tc, rest, passed) =
        first_call after_caller
          (put_user_caller verify_token true (some cfg) range_read encrypt new_uuid new_key token
            req)
          out h in
      let (valid, allowed, may) =
        put_user_caller-eq-ok verify_token cfg range_read encrypt new_uuid new_key token req tc
          passed in
      let (admin, role) = is_creator tc may in
      let (user, plain, not_empty, free, unused, new, same) =
        create_user-eq-ok req out (chosen tc rest) in
      (tc, user, plain, valid, allowed, admin, role, not_empty, free, unused, new, same)
    where
      after_caller : TokenClaims → Outcome UserError (List CommitChg × UserResp)
      after_caller tc =
          if req.is_update
          then update_user verify_token true (some cfg) range_read encrypt new_uuid new_key tc req
          else create_user verify_token true (some cfg) range_read encrypt new_uuid new_key req

      is_creator :
          (tc : TokenClaims)
          → (req.is_update ≡ true) ⊎ ((tc.is_admin ≡ true) × (tc.role ≡ admin_user_role))
          → (tc.is_admin ≡ true) × (tc.role ≡ admin_user_role)
      is_creator tc (inl e) = cc
      is_creator tc (inr both) = both

      chosen :
          (tc : TokenClaims)
          → after_caller tc ≡ ok out
          → create_user verify_token true (some cfg) range_read encrypt new_uuid new_key req
            ≡ ok out
      chosen tc r =
          sym (
            ap
              (λ (b : Bool).
                if b
                then update_user verify_token true (some cfg) range_read encrypt new_uuid new_key tc
                    req
                else create_user verify_token true (some cfg) range_read encrypt new_uuid new_key
                    req)
              create)
          ∙ r
