-- ===== src/User/Persisted.antt =====
-- What `CreateAdminUser` of controlplane/user/server/handlers.go leaves in the store.
use mathlib.Core.Path.{subst}
use mathlib.Core.Bool.{true≢false}
use niova_mdsvc.Prelude.{
  String, ◌≡◌, refl, sym, ap, ◌∙◌, Bool, true, false, not, inl, inr, Option, none, some, List,
  Outcome, ok, err, panic, running, str_eq, if◌then◌else◌, Bool-cases, Option-cases, ◌⊎◌, str_eq→eq,
  ◌≢◌, arith, eq_iff,
}
use niova_mdsvc.Prelude.Texts.{trim, is_space}
use niova_mdsvc.Commit.{CommitChg}
use niova_mdsvc.Store.{DataStore, StoreError, apply_kv}
use niova_mdsvc.Store.Applied.{last, all_applied as after_kv}
use niova_mdsvc.User.{UserReq, User, UserResp, admin_username, serialize_user}
use niova_mdsvc.User.Handlers.{
  RangeRead, UserError, default_admin_secret_key, check_user_exists_by_id,
}
use niova_mdsvc.User.PutUser.{answer}
use niova_mdsvc.User.Admin.{
  AdminError, AdminAnswer, created, already_exists, admin_id, new_admin, apply_commit_changes,
  after_write, existing_admin, persist_admin, create_admin_user,
}

ok_answer : {a b : AdminAnswer} → ◌≡◌ {A = Outcome AdminError AdminAnswer} (ok b) (ok a) → b ≡ a
ok_answer h = cc

module _ (ds : DataStore) where
  -- applyCommitChanges and applyKV are the same function of the changes and the store.
  pub apply_commit_changes-apply_kv :
      (cs : List CommitChg) (s : ds.State) → apply_commit_changes ds cs s ≡ apply_kv ds cs s
  unfolding apply_commit_changes apply_kv
  apply_commit_changes-apply_kv cs s = refl

  abbrev answers : Outcome AdminError AdminAnswer → Bool
  answers (ok a) = true
  answers (err e) = false
  answers panic = false
  answers running = false

  -- After all changes were applied, every key has the value of the last change for it.
  all_applied :
      (cs : List CommitChg) (s : ds.State)
      → (apply_commit_changes ds cs s).0 ≡ ok tt
      → (k : String) → ds.read k (apply_commit_changes ds cs s).1 ≡ last k cs (ds.read k s)
  all_applied cs s done k =
      let p = apply_commit_changes-apply_kv cs s in
      let applied = ap (λ (q : Outcome StoreError (Unit {0}) × ds.State). q.0) (sym p) ∙ done in
      ap (λ (q : Outcome StoreError (Unit {0}) × ds.State). ds.read k q.1) p
      ∙ after_kv ds cs s (apply_kv ds cs s).1 (ap (λ r. (r, (apply_kv ds cs s).1)) applied) k

  module _ (range_read : ds.State → String → RangeRead) (encrypt decrypt : String → Option String)
      (s s' : ds.State) where
    -- The store after a new admin was written: every key has what the last of the admin's changes for it
    -- gives, and every other key what it had.
    pub record NewAdmin (req : UserReq) (resp : UserResp) : Type 0 where
      pub secret : String
      pub plain :
          ((req.new_secret_key ≡ "") × (resp.secret_key ≡ "niova-admin-secret-key"))
          ⊎ ((req.new_secret_key ≢ "") × (resp.secret_key ≡ req.new_secret_key))
      pub encrypted : encrypt resp.secret_key ≡ some secret
      pub answered : resp ≡ record {
        username = "admin";
        user_id = "00000000-0000-0000-0000-000000000000";
        secret_key = resp.secret_key;
        user_role = "admin";
        status = 0;
      }
      pub values :
          (k : String)
          → ds.read k s'
            ≡ last k
                (serialize_user (record {
                  user_id = "00000000-0000-0000-0000-000000000000";
                  username = "admin";
                  secret_key = secret;
                  user_role = "admin";
                  is_admin = true;
                  status = 0;
                }))
                (ds.read k s)

    abbrev pub Answered : UserReq → AdminAnswer → Type 0
    Answered req (created resp) =
        (check_user_exists_by_id (range_read s) admin_id ≡ ok none) × NewAdmin req resp
    Answered req (already_exists resp) =
        (s' ≡ s) × ((u : User) × (check_user_exists_by_id (range_read s) admin_id ≡ ok (some u)))

    -- The secret key of a new admin.
    abbrev KeyFor : UserReq → String → Type 0
    KeyFor req plain =
        ((req.new_secret_key ≡ "") × (plain ≡ "niova-admin-secret-key"))
        ⊎ ((req.new_secret_key ≢ "") × (plain ≡ req.new_secret_key))

    chosen_key :
        (req : UserReq)
        → KeyFor req
            (if str_eq req.new_secret_key "" then default_admin_secret_key else req.new_secret_key)
    chosen_key req = elim (Bool-cases (str_eq req.new_secret_key "")) [
      | inl e ↦ inl (str_eq→eq req.new_secret_key "" e, rw e refl)
      | inr e ↦
          inr (λ unset. absurd (ground (arith, e, unset, eq_iff req.new_secret_key "")), rw e refl)
    ]

    same_answer :
        {a b : AdminAnswer} {t : ds.State}
        → ◌≡◌ {A = Outcome AdminError AdminAnswer × ds.State} (ok b, t) (ok a, s')
        → b ≡ a
    same_answer h = ok_answer (ap (λ (q : Outcome AdminError AdminAnswer × ds.State). q.0) h)

    no_answer :
        (r : Outcome AdminError AdminAnswer) (t : ds.State) {a : AdminAnswer}
        → answers r ≡ false
        → ◌≡◌ {A = Outcome AdminError AdminAnswer × ds.State} (r, t) (ok a, s')
        → ⊥
    no_answer r t e h =
        true≢false (sym (ap (λ (q : Outcome AdminError AdminAnswer × ds.State). answers q.0) h) ∙ e)

    after_write-ok :
        (resp : UserResp) (p : Outcome StoreError (Unit {0}) × ds.State) (a : AdminAnswer)
        → after_write ds range_read encrypt decrypt resp p ≡ (ok a, s')
        → (p.0 ≡ ok tt) × (a ≡ created resp) × (p.1 ≡ s')
    unfolding after_write
    after_write-ok resp (ok u, t) a h =
        (refl, cc, ap (λ (q : Outcome AdminError AdminAnswer × ds.State). q.1) h)
    after_write-ok resp (err e, t) a h = absurd (no_answer _ t refl h)
    after_write-ok resp (panic, t) a h = absurd (no_answer _ t refl h)
    after_write-ok resp (running, t) a h = absurd (no_answer _ t refl h)

    written :
        (req : UserReq) (plain secret : String) (a : AdminAnswer)
        → KeyFor req plain
        → check_user_exists_by_id (range_read s) admin_id ≡ ok none
        → encrypt plain ≡ some secret
        → after_write ds range_read encrypt decrypt
            (answer (new_admin admin_username secret) plain)
            (apply_commit_changes ds (serialize_user (new_admin admin_username secret)) s)
          ≡ (ok a, s')
        → Answered req a
    unfolding new_admin
    written req plain secret a key none_there e h =
        let (done, is_created, same) = after_write-ok _ _ a h in
        subst (Answered req) (sym is_created) (
          none_there,
          record {
            secret = secret;
            plain = key;
            encrypted = e;
            answered = refl;
            values = λ k.
                ap (ds.read k) (sym same)
                ∙ all_applied (serialize_user (new_admin admin_username secret)) s done k;
          },
        )

    persist_admin-ok :
        (req : UserReq) (plain : String) (a : AdminAnswer)
        → KeyFor req plain
        → check_user_exists_by_id (range_read s) admin_id ≡ ok none
        → persist_admin ds range_read encrypt decrypt admin_username plain s ≡ (ok a, s')
        → Answered req a
    unfolding persist_admin
    persist_admin-ok req plain a key none_there h = elim (Option-cases (encrypt plain)) [
      | inl e ↦ absurd (no_answer _ s refl (rw (e, persist_admin) at h))
      | inr (secret, e) ↦ written req plain secret a key none_there e (rw (e, persist_admin) at h)
    ]

    -- A successful CreateAdminUser has the reserved name in its request. If the admin is stored it writes
    -- nothing. Otherwise every key of the store has what the last change that stores one user gives for
    -- it, and every other key what it had: that user has the nil UUID, the name and role "admin", is an
    -- active admin, and has the encrypted secret key, which the answer has in plain and which is the
    -- request's, or the default one if the request has none.
    pub create_admin_user-Answered :
        (req : UserReq) (a : AdminAnswer)
        → create_admin_user ds range_read encrypt decrypt req s ≡ (ok a, s')
        → (trim is_space req.username ≡ admin_username) × Answered req a
    unfolding create_admin_user
    create_admin_user-Answered req a h = named (Bool-cases (str_eq username "")) h
      where
        username : String
        username = trim is_space req.username

        plain : String
        plain =
            if str_eq req.new_secret_key "" then default_admin_secret_key else req.new_secret_key

        looked_up : Outcome UserError (Option User) → Outcome AdminError AdminAnswer × ds.State
        looked_up o = elim o [
          | ok none ↦ persist_admin ds range_read encrypt decrypt username plain s
          | ok (some u) ↦ (ok (already_exists (existing_admin ds range_read encrypt decrypt u)), s)
          | err e ↦ (err (AdminError.lookup_failed e), s)
          | panic ↦ (panic, s)
          | running ↦ (running, s)
        ]

        reserved : Outcome AdminError AdminAnswer × ds.State
        reserved =
            if not (str_eq username admin_username)
            then (err AdminError.unauthorized_username, s)
            else looked_up (check_user_exists_by_id (range_read s) admin_id)

        checked : Outcome AdminError AdminAnswer × ds.State
        checked = if str_eq username "" then (err AdminError.empty_username, s) else reserved

        by_lookup :
            username ≡ admin_username
            → (o : Outcome UserError (Option User))
            → check_user_exists_by_id (range_read s) admin_id ≡ o
            → looked_up o ≡ (ok a, s')
            → Answered req a
        by_lookup n (ok none) e h = persist_admin-ok req plain a (chosen_key req) e (
            subst
              (λ (t : String). persist_admin ds range_read encrypt decrypt t plain s ≡ (ok a, s')) n
              h)
        by_lookup n (ok (some u)) e h = there u e h
          where
            there :
                (u : User)
                → check_user_exists_by_id (range_read s) admin_id ≡ ok (some u)
                → looked_up (ok (some u)) ≡ (ok a, s')
                → Answered req a
            there u e h =
                subst (Answered req) (same_answer h)
                  (ap (λ (q : Outcome AdminError AdminAnswer × ds.State). q.1) (sym h), (u, e))
        by_lookup n (err x) e h = absurd (no_answer _ s refl h)
        by_lookup n panic e h = absurd (no_answer _ s refl h)
        by_lookup n running e h = absurd (no_answer _ s refl h)

        is_reserved :
            (str_eq username admin_username ≡ true) ⊎ (str_eq username admin_username ≡ false)
            → reserved ≡ (ok a, s')
            → (username ≡ admin_username) × Answered req a
        is_reserved (inl e) h =
            let n = str_eq→eq username admin_username e in
            (n, by_lookup n (check_user_exists_by_id (range_read s) admin_id) refl (rw e at h))
        is_reserved (inr e) h = absurd (no_answer _ s refl (rw e at h))

        named :
            (str_eq username "" ≡ true) ⊎ (str_eq username "" ≡ false)
            → checked ≡ (ok a, s')
            → (username ≡ admin_username) × Answered req a
        named (inl e) h = absurd (no_answer _ s refl (rw e at h))
        named (inr e) h = is_reserved (Bool-cases (str_eq username admin_username)) (rw e at h)
