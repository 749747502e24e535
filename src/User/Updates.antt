-- ===== src/User/Updates.antt =====
-- Who may update which user by `PutUser` of controlplane/user/server/handlers.go, and what of the user may
-- change.
use niova_mdsvc.Prelude.{
  String, ◌≡◌, sym, ap, ◌∙◌, Bool, true, not, ◌&&◌, ◌⊎◌, Option, some, List, [], ◌∷◌, ◌++◌, Outcome,
  ok, ◌>>=◌, first_call, str_eq, if◌then◌else◌,
}
use niova_mdsvc.Commit.{CommitChg}
use niova_mdsvc.Authorizer.{Config, check_rbac}
use niova_mdsvc.Session.{TokenClaims, ClaimValue, validate_token}
use niova_mdsvc.User.{UserReq, User, UserResp, serialize_user}
use niova_mdsvc.User.Handlers.{
  RangeRead, UserError, only_own_record, user_id_required, guard, check_user_exists_by_id,
  check_unused, rename, handle_update_user,
}
use niova_mdsvc.User.PutUser.{
  answer, renames, old_index, existing_user, put_user_caller, update_user, create_user, put_user,
}
use niova_mdsvc.User.Changed.{guard-eq-ok, existing_user-eq-ok, KeyOf, handle_update_user-eq-ok}
use niova_mdsvc.User.Updated.{Updated, Unindexed, may_update, updated, old_index-Unindexed}
use niova_mdsvc.User.Callers.{put_user_caller-eq-ok}

module _ (verify_token : String → String ⊎ List (String × ClaimValue)) (cfg : Config)
    (range_read : String → RangeRead) (encrypt : String → Option String)
    (new_uuid new_key : Option String) where
  update_user-eq-ok :
      (tc : TokenClaims) (req : UserReq) (out : List CommitChg × UserResp)
      → update_user verify_token true (some cfg) range_read encrypt new_uuid new_key tc req ≡ ok out
      → (existing user : User) × (plain : String) × (check_user_exists_by_id range_read req.user_id
          ≡ ok (some existing))
        × ((tc.is_admin ≡ true) ⊎ (tc.user_id ≡ req.user_id))
        × Updated verify_token cfg range_read encrypt new_uuid new_key req existing user plain
        × ((tail : List CommitChg) × Unindexed verify_token cfg range_read encrypt new_uuid new_key
              existing user tail
            × (out ≡ (serialize_user user ++ tail, answer user plain)))
  unfolding update_user
  update_user-eq-ok tc req out h =
      let (_, rest, _) =
        first_call (λ _. after_id) (guard (str_eq req.user_id "") user_id_required) out h in
      let (stored, rest1, read) =
        first_call after_read (check_user_exists_by_id range_read req.user_id) out rest in
      let (existing, rest2, is_stored) =
        first_call after_existing (existing_user req.user_id stored) out rest1 in
      let (_, rest3, may) =
        first_call (λ _. after_may existing) (guard (denied tc) only_own_record) out rest2 in
      let (_, rest4, unused) = first_call (λ _. after_unused existing) (check existing) out rest3 in
      let (r, done, handled) = first_call (finish existing) (handle existing) out rest4 in
      let (named, renamed, key, same) =
        handle_update_user-eq-ok encrypt (record req { is_admin = existing.is_admin }) existing r
          handled in
      (
        existing,
        r.0,
        r.1,
        read ∙ ap ok (existing_user-eq-ok req.user_id stored is_stored),
        may_update verify_token cfg range_read encrypt new_uuid new_key tc.is_admin tc.user_id
            req.user_id (guard-eq-ok _ _ may),
        new existing named r unused renamed key same,
        (
          old_index req existing,
          old_index-Unindexed verify_token cfg range_read encrypt new_uuid new_key req existing r.0
              r.1 (new existing named r unused renamed key same),
          cc,
        ),
      )
    where
      denied : TokenClaims → Bool
      denied t = true && (not t.is_admin && not (str_eq t.user_id req.user_id))

      finish : User → User × String → Outcome UserError (List CommitChg × UserResp)
      finish existing r = ok (serialize_user r.0 ++ old_index req existing, answer r.0 r.1)

      handle : User → Outcome UserError (User × String)
      handle existing =
          handle_update_user encrypt (record req { is_admin = existing.is_admin }) existing

      check : User → Outcome UserError (Unit {0})
      check existing = if renames req existing then check_unused range_read req.username else ok tt

      after_unused : User → Outcome UserError (List CommitChg × UserResp)
      after_unused existing = handle existing >>= finish existing

      after_may : User → Outcome UserError (List CommitChg × UserResp)
      after_may existing = check existing >>= λ _. after_unused existing

      after_existing : User → Outcome UserError (List CommitChg × UserResp)
      after_existing existing = guard (denied tc) only_own_record >>= λ _. after_may existing

      after_read : Option User → Outcome UserError (List CommitChg × UserResp)
      after_read stored = existing_user req.user_id stored >>= after_existing

      after_id : Outcome UserError (List CommitChg × UserResp)
      after_id = check_user_exists_by_id range_read req.user_id >>= after_read

      of_stored :
          (existing named : User) (r : User × String)
          → rename encrypt (record req { is_admin = existing.is_admin }) existing ≡ ok named
          → KeyOf encrypt (record req { is_admin = existing.is_admin }) named r.0.secret_key r.1
          → KeyOf encrypt req named r.0.secret_key r.1
      of_stored existing named r renamed key = key

      new :
          (existing named : User) (r : User × String) {u : Unit {0}}
          → check existing ≡ ok u
          → rename encrypt (record req { is_admin = existing.is_admin }) existing ≡ ok named
          → KeyOf encrypt (record req { is_admin = existing.is_admin }) named r.0.secret_key r.1
          → r.0 ≡ record named { secret_key = r.0.secret_key }
          → Updated verify_token cfg range_read encrypt new_uuid new_key req existing r.0 r.1
      new existing named r unused renamed key same =
          updated verify_token cfg range_read encrypt new_uuid new_key req existing named r.0 r.1
            unused renamed (of_stored existing named r renamed key) same

  -- With authentication enabled and an authorizer, an accepted update by PutUser is by a caller with a
  -- valid token whose role may call it and who is an admin or the user itself, and concerns a stored user;
  -- its changes store that user with the same ID, role, status and kind, with another name only for one
  -- that is no admin and if the new name is not reserved and not in the index, and with another secret key
  -- only for an admin. After them comes the deletion of the index key of the old name, if there was one
  -- and the name has changed, and nothing otherwise.
  pub put_user-Updated :
      (token : String) (req : UserReq) (out : List CommitChg × UserResp)
      → req.is_update ≡ true
      → put_user verify_token true (some cfg) range_read encrypt new_uuid new_key token req ≡ ok out
      → (tc : TokenClaims) × (existing user : User) × (plain : String) × (validate_token
            verify_token true token
          ≡ ok tc)
        × (check_rbac cfg "PutUser" (tc.role ∷ []) ≡ true)
        × (check_user_exists_by_id range_read req.user_id ≡ ok (some existing))
        × ((tc.is_admin ≡ true) ⊎ (tc.user_id ≡ req.user_id))
        × Updated verify_token cfg range_read encrypt new_uuid new_key req existing user plain
        × ((tail : List CommitChg) × Unindexed verify_token cfg range_read encrypt new_uuid new_key
              existing user tail
            × (out ≡ (serialize_user user ++ tail, answer user plain)))
  unfolding put_user
  put_user-Updated token req out update h =
      let (tc, rest, passed) =
        first_call after_caller
          (put_user_caller verify_token true (some cfg) range_read encrypt new_uuid new_key token
            req)
          out h in
      let (valid, allowed, _) =
        put_user_caller-eq-ok verify_token cfg range_read encrypt new_uuid new_key token req tc
          passed in
      let (existing, user, plain, read, may, new, same) =
        update_user-eq-ok tc req out (chosen tc rest) in
      (tc, existing, user, plain, valid, allowed, read, may, new, same)
    where
      after_caller : TokenClaims → Outcome UserError (List CommitChg × UserResp)
      after_caller tc =
          if req.is_update
          then update_user verify_token true (some cfg) range_read encrypt new_uuid new_key tc req
          else create_user verify_token true (some cfg) range_read encrypt new_uuid new_key req

      chosen :
          (tc : TokenClaims)
          → after_caller tc ≡ ok out
          → update_user verify_token true (some cfg) range_read encrypt new_uuid new_key tc req
            ≡ ok out
      chosen tc r =
          sym (
            ap
              (λ (b : Bool).
                if b
                then update_user verify_token true (some cfg) range_read encrypt new_uuid new_key tc
                    req
                else create_user verify_token true (some cfg) range_read encrypt new_uuid new_key
                    req)
              update)
          ∙ r
