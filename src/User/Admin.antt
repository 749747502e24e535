-- ===== src/User/Admin.antt =====
-- `CreateAdminUser` and `applyCommitChanges` of controlplane/user/server/handlers.go, which write to the
-- store. The range read is a function of the store's state.
use niova_mdsvc.Prelude.{
  String, true, not, Option, none, some, List, [], ◌∷◌, Outcome, ok, err, panic, running, str_eq,
  if◌then◌else◌,
}
use niova_mdsvc.Prelude.Texts.{trim, is_space}
use niova_mdsvc.Commit.{apply, delete, unknown, CommitChg}
use niova_mdsvc.Store.{DataStore, StoreError, failed_to_apply, unknown_operation}
use niova_mdsvc.User.{
  UserReq, User, UserResp, status_active, admin_username, admin_user_role, serialize_user,
}
use niova_mdsvc.User.Handlers.{
  RangeRead, UserError, default_admin_secret_key, check_user_exists_by_id,
}
use niova_mdsvc.User.PutUser.{answer}

pub data AdminError : Type 0 where
  empty_username unauthorized_username encryption_failed : AdminError
  lookup_failed : UserError → AdminError
  not_persisted : StoreError → AdminError

-- The new admin, or the one that was there.
pub data AdminAnswer : Type 0 where
  created already_exists : UserResp → AdminAnswer

-- `uuid.Nil.String()`
abbrev pub admin_id : String
admin_id = "00000000-0000-0000-0000-000000000000"

unfoldable pub new_admin : String → String → User
new_admin username secret = record {
  user_id = admin_id;
  username = username;
  secret_key = secret;
  user_role = admin_user_role;
  is_admin = true;
  status = status_active;
}

module _ (ds : DataStore) where
  -- `applyCommitChanges`; the key in the error is that of the change that failed.
  unfoldable pub apply_commit_changes :
      List CommitChg → ds.State → Outcome StoreError (Unit {0}) × ds.State
  apply_commit_changes [] s = (ok tt, s)
  apply_commit_changes (c ∷ cs) s = elim c.op [
    | apply ↦ elim (ds.write c.key c.value s) [
      | none ↦ (err (failed_to_apply c.key), s)
      | some s' ↦ apply_commit_changes cs s'
    ]
    | delete ↦ elim (ds.delete c.key s) [
      | none ↦ (err (failed_to_apply c.key), s)
      | some s' ↦ apply_commit_changes cs s'
    ]
    | unknown ↦ (err (unknown_operation c.key), s)
  ]

  module _ (range_read : ds.State → String → RangeRead)
      (encrypt decrypt : String → Option String) where
    -- The admin that is there; a key that cannot be decrypted is shown empty.
    unfoldable pub existing_admin : User → UserResp
    existing_admin u = answer u (elim (decrypt u.secret_key) [ none ↦ "" | some plain ↦ plain ])

    -- The answer after the changes of the new admin.
    unfoldable pub after_write :
        UserResp
        → Outcome StoreError (Unit {0}) × ds.State
        → Outcome AdminError AdminAnswer × ds.State
    after_write resp (ok u, s) = (ok (created resp), s)
    after_write resp (err e, s) = (err (not_persisted e), s)
    after_write resp (panic, s) = (panic, s)
    after_write resp (running, s) = (running, s)

    -- The writing of a new admin.
    unfoldable pub persist_admin :
        String → String → ds.State → Outcome AdminError AdminAnswer × ds.State
    unfolding new_admin after_write
    persist_admin username plain s = elim (encrypt plain) [
      | none ↦ (err encryption_failed, s)
      | some secret ↦
          after_write (answer (new_admin username secret) plain)
            (apply_commit_changes (serialize_user (new_admin username secret)) s)
    ]

    unfoldable pub create_admin_user :
        UserReq → ds.State → Outcome AdminError AdminAnswer × ds.State
    unfolding existing_admin persist_admin
    create_admin_user req s =
        let username = trim is_space req.username in
        let plain =
          if str_eq req.new_secret_key "" then default_admin_secret_key else req.new_secret_key in
        if str_eq username ""
        then (err empty_username, s)
        else if not (str_eq username admin_username)
        then (err unauthorized_username, s)
        else elim (check_user_exists_by_id (range_read s) admin_id) [
          | ok none ↦ persist_admin username plain s
          | ok (some u) ↦ (ok (already_exists (existing_admin u)), s)
          | err e ↦ (err (lookup_failed e), s)
          | panic ↦ (panic, s)
          | running ↦ (running, s)
        ]
