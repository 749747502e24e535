-- ===== src/User/Sessions.antt =====
-- What `Login` of controlplane/user/server/handlers.go promises, and what `ValidateToken` of
-- controlplane/ctlplanefuncs/server/srvctlplanefuncs.go makes of the token.
use niova_mdsvc.Prelude.{
  String, ◌≡◌, ◌≢◌, ◌↔◌, refl, sym, ap, ◌∙◌, true, false, not, ◌⊎◌, inl, inr, Option, some, List,
  Outcome, ok, ◌>>=◌, first_call, ◌==◌, str_eq-ne, [], ◌∷◌, arith, eq_iff, Option-cases,
}
use niova_mdsvc.Session.{
  ClaimValue, text, flag, other, text_claim, flag_claim, read_claims, validate_token,
}
use niova_mdsvc.Prelude.Texts.{split, trim, is_space}
use niova_mdsvc.Commit.{◌/◌}
use niova_mdsvc.User.{User, status_active, deserialize_single_user}
use niova_mdsvc.User.Handlers.{
  RangeRead, found, UserError, LoginResp, account_not_available, default_token_ttl, guard,
}
use niova_mdsvc.User.Login.{
  token_claims, login_claims, credentials, named_user, check_secret, issue_token, login,
}
use niova_mdsvc.User.Changed.{guard-eq-ok}
use niova_mdsvc.User.Named.{
  FirstValue, Given-credentials, credentials-eq-ok, named_user-eq-ok, named_user-ok, trim_none,
}

module _ (range_read : String → RangeRead) (decrypt : String → Option String)
    (sign : List (String × ClaimValue) → Option String) where
  check_secret-eq-ok :
      (secret : String) (user : User) {u : Unit {0}}
      → check_secret range_read decrypt sign secret user ≡ ok u
      → decrypt user.secret_key ≡ some secret
  unfolding check_secret guard
  check_secret-eq-ok secret user h = elim (Option-cases (decrypt user.secret_key)) [
    | inl e ↦ absurd (ground (arith, e, h))
    | inr (stored, e) ↦ ground (arith, e, h, eq_iff stored secret)
  ]

  -- The answer for a user and its token.
  abbrev pub login_answer : User → String → LoginResp
  login_answer user token = record {
    access_token = token;
    user_id = user.user_id;
    username = user.username;
    user_role = user.user_role;
    is_admin = user.is_admin;
    expires_in = default_token_ttl;
  }

  issue_token-eq-ok :
      (user : User) (r : LoginResp)
      → issue_token range_read decrypt sign user ≡ ok r
      → (sign (token_claims (login_claims user)) ≡ some r.access_token)
        × (r ≡ login_answer user r.access_token)
  unfolding issue_token
  issue_token-eq-ok user r h = elim (Option-cases (sign (token_claims (login_claims user)))) [
    | inl e ↦ absurd (ground (arith, e, h))
    | inr (token, e) ↦ (ground (arith, e, h), ground (arith, e, h))
  ]

  -- Who may log in with this request, and the answer. The user is the one under the ID that the range read
  -- with the prefix `u-idx/un/<name>` gives first.
  pub record LogsIn (id : String) (r : LoginResp) (user : User) : Type 0 where
    pub name : String
    pub secret : String
    pub user_id : String
    pub index_kvs : List (String × String)
    pub user_kvs : List (String × String)
    pub given : split b':' id ≡ name ∷ secret ∷ []
    pub has_name : trim is_space name ≢ ""
    pub has_secret : trim is_space secret ≢ ""
    pub indexed : range_read ("u-idx" / "un" / name) ≡ found index_kvs
    pub first : FirstValue range_read decrypt sign user_id index_kvs
    pub stored : range_read ("u" / user_id) ≡ found user_kvs
    pub known : deserialize_single_user user_kvs user_id ≡ some user
    pub active : user.status ≡ 0
    pub same_secret : decrypt user.secret_key ≡ some secret
    pub token :
        sign (
          ("iss", text "ControlPlane")
          ∷ ("exp", other)
          ∷ ("userID", text user.user_id)
          ∷ ("username", text user.username)
          ∷ ("role", text user.user_role)
          ∷ ("isAdmin", flag user.is_admin)
          ∷ [])
        ≡ some r.access_token
    pub answered : r ≡ login_answer user r.access_token

  -- The rest of `Login` after each of its steps.
  abbrev after_active : String → User → Outcome UserError LoginResp
  after_active secret user = check_secret range_read decrypt sign secret user >>= λ _.
      issue_token range_read decrypt sign user

  abbrev after_user : String → User → Outcome UserError LoginResp
  after_user secret user = guard (not (user.status == status_active)) account_not_available >>= λ _.
      after_active secret user

  abbrev after_credentials : String × String → Outcome UserError LoginResp
  after_credentials given = named_user range_read decrypt sign given.0 >>= after_user given.1

  login-eq-ok :
      (id : String) (r : LoginResp)
      → login range_read decrypt sign id ≡ ok r
      → (user : User) × LogsIn id r user
  unfolding login token_claims login_claims
  login-eq-ok id r h =
      let (given, rest, parsed) = first_call after_credentials (credentials id) r h in
      let (user, rest1, known) =
        first_call (after_user given.1) (named_user range_read decrypt sign given.0) r rest in
      let (_, rest2, active) =
        first_call (λ _. after_active given.1 user)
          (guard (not (user.status == status_active)) account_not_available) r rest1 in
      let (_, rest3, same) =
        first_call (λ _. issue_token range_read decrypt sign user)
          (check_secret range_read decrypt sign given.1 user) r rest2 in
      let (signed, answered) = issue_token-eq-ok user r rest3 in
      let (parts, has_name, has_secret) =
        credentials-eq-ok range_read decrypt sign id given parsed in
      let (user_id, (index_kvs, indexed, first), (user_kvs, stored, single)) =
        named_user-eq-ok range_read decrypt sign given.0 user known in
      let is_active : not (user.status == status_active) ≡ false = guard-eq-ok _ _ active in
      (
        user,
        record {
          name = given.0;
          secret = given.1;
          user_id = user_id;
          index_kvs = index_kvs;
          user_kvs = user_kvs;
          given = parts;
          has_name = has_name;
          has_secret = has_secret;
          indexed = indexed;
          first = first;
          stored = stored;
          known = single;
          active = ground (arith, is_active);
          same_secret = check_secret-eq-ok given.1 user same;
          token = signed;
          answered = answered;
        },
      )

  is_active :
      (user : User)
      → user.status ≡ status_active
      → guard (not (user.status == status_active)) account_not_available ≡ ok tt
  unfolding guard
  is_active user e = ground (arith, e)

  same_secret :
      (secret : String) (user : User)
      → decrypt user.secret_key ≡ some secret
      → check_secret range_read decrypt sign secret user ≡ ok tt
  unfolding check_secret guard
  same_secret secret user e = ground (arith, e, eq_iff secret secret)

  issued :
      (user : User) (token : String)
      → sign (token_claims (login_claims user)) ≡ some token
      → issue_token range_read decrypt sign user ≡ ok (login_answer user token)
  unfolding issue_token
  issued user token e = ground (arith, e)

  accepts :
      (id : String) (r : LoginResp) (user : User)
      → LogsIn id r user
      → login range_read decrypt sign id ≡ ok r
  unfolding login token_claims login_claims
  accepts id r user l =
      ap (λ m. m >>= after_credentials)
        (Given-credentials range_read decrypt sign id (l.name, l.secret)
          (l.given, l.has_name, l.has_secret))
      ∙ ap (λ m. m >>= after_user l.secret)
          (named_user-ok range_read decrypt sign l.name l.user_id user
            (trim_none range_read decrypt sign l.name l.has_name) (l.index_kvs, l.indexed, l.first)
            (l.user_kvs, l.stored, l.known))
      ∙ ap (λ m. m >>= λ _. after_active l.secret user) (is_active user l.active)
      ∙ ap (λ m. m >>= λ _. issue_token range_read decrypt sign user)
          (same_secret l.secret user l.same_secret)
      ∙ issued user r.access_token l.token
      ∙ ap ok (sym l.answered)

  -- Login gives an answer exactly in this case: the request is a name and a secret key, neither of them
  -- blank, with one colon between; the first value that is not empty of the range read with the prefix
  -- `u-idx/un/<name>`, which may be that of a longer name, is an ID under which a user is stored; that
  -- user is active, its decrypted secret key is the one given, and the token is signed over that user's
  -- ID, name, role and kind beside issuer and expiry. That name need not be the one given.
  pub login_iff :
      (id : String) (r : LoginResp)
      → (login range_read decrypt sign id ≡ ok r) ↔ ((user : User) × LogsIn id r user)
  login_iff id r = (login-eq-ok id r, λ (user, l). accepts id r user l)

  validated :
      (verify_token : String → String ⊎ List (String × ClaimValue)) (token : String) (user : User)
      → token ≢ ""
      → user.user_id ≢ ""
      → user.user_role ≢ ""
      → verify_token token ≡ inr (token_claims (login_claims user))
      → validate_token verify_token true token
        ≡ ok (record { user_id = user.user_id; role = user.user_role; is_admin = user.is_admin })
  unfolding validate_token read_claims text_claim flag_claim token_claims login_claims
  validated verify_token token user full id role e = rw (str_eq-ne token "" full) (
      rw (e, validate_token)
        (rw (str_eq-ne user.user_id "" id) (rw (str_eq-ne user.user_role "" role) refl)))

  -- The token of a successful Login makes ValidateToken see the logged-in user: its ID, its role and
  -- whether it is an admin, provided that none of token, ID and role is empty and that a token that was
  -- signed over the claims of a user verifies to them.
  pub validate_token-login :
      (verify_token : String → String ⊎ List (String × ClaimValue))
      (verifies : (user : User) (token : String)
        → sign (token_claims (login_claims user)) ≡ some token
        → verify_token token ≡ inr (token_claims (login_claims user)))
      (id : String) (r : LoginResp)
      → login range_read decrypt sign id ≡ ok r
      → r.access_token ≢ ""
      → r.user_id ≢ ""
      → r.user_role ≢ ""
      → validate_token verify_token true r.access_token
        ≡ ok (record { user_id = r.user_id; role = r.user_role; is_admin = r.is_admin })
  unfolding token_claims login_claims
  validate_token-login verify_token verifies id r h token user_id role =
      let (user, l) = login-eq-ok id r h in
      validated verify_token r.access_token user token
        (λ e. user_id (ap (λ (a : LoginResp). a.user_id) l.answered ∙ e))
        (λ e. role (ap (λ (a : LoginResp). a.user_role) l.answered ∙ e))
        (verifies user r.access_token l.token)
      ∙ ap ok (
          ap
            (λ (a : LoginResp). record {
              user_id = a.user_id;
              role = a.user_role;
              is_admin = a.is_admin;
            })
            (sym l.answered))
