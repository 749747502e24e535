-- ===== src/Handlers/Mount.antt =====
-- Mounting a vdev: `WPMountVdev` and `APMountVdev` of
-- controlplane/ctlplanefuncs/server/srvctlplanefuncs.go. A time is the number of nanoseconds since Go's zero
-- time. The clock, the text form of a time, `uuid.Validate` and the making of the mount's token are parameters.
use niova_mdsvc.Prelude.{
  ℕ, ◌+◌, ◌*◌, ◌^◌, String, Bool, true, false, Option, none, some, List, [], ◌∷◌, Outcome, ok, err,
  ◌>>=◌, length, ltb, ◌==◌, if◌then◌else◌, add64, utoa,
}
use niova_mdsvc.Prelude.Numbers.{parse_uint, max_u64, value_of_parsed}
use niova_mdsvc.Keys.{key_parts}
use niova_mdsvc.Commit.{CommitChg, change, ◌/◌, get_conf_key, vdev_key}
use niova_mdsvc.CpLib.{VdevConfig, VdevMountInfo}
use niova_mdsvc.Authorizer.{Config, lookup, check_rbac, authorize}
use niova_mdsvc.Session.{TokenClaims, validate_token}
use niova_mdsvc.Prepare.{map_error}
use niova_mdsvc.Store.{RangeRead, found, key_not_found, range_read_failure}
use niova_mdsvc.Store.Ranges.{RangeStore, reader}
use niova_mdsvc.Parser.{parse_entities}
use niova_mdsvc.Parser.Storage.{vdev_parser}
use niova_mdsvc.Handlers.{
  Env, HandlerError, auth, not_authorized, range_read_failed, active_window, token_failed,
  vdev_not_found, commit,
}

abbrev pub second : ℕ
second = 10 ^ 9

-- `VDEV_MOUNT_LIMIT`
abbrev pub vdev_mount_limit : ℕ
vdev_mount_limit = 30 * second

abbrev pub vname_key : String
vname_key = "vname"

-- The pairs of a range read; any error is one.
unfoldable pub or_failed : RangeRead → Outcome HandlerError (List (String × String))
or_failed (found kvs) = ok kvs
or_failed key_not_found = err range_read_failed
or_failed range_read_failure = err range_read_failed

unfoldable pub require : Bool → HandlerError → Outcome HandlerError (Unit {0})
require true e = ok tt
require false e = err e

-- The loop over the names: the last value whose key has two pieces.
unfoldable pub named_id : String → List (String × String) → String
named_id id [] = id
named_id id ((k, v) ∷ kvs) = named_id (if length (key_parts k) == 2 then v else id) kvs

unfoldable pub mc_key : String → String
mc_key id = vdev_key / id / "m" / "mc"

unfoldable pub lu_key : String → String
lu_key id = vdev_key / id / "m" / "lu"

-- The prefix of a vdev's keys.
unfoldable pub vdev_prefix : String → String
vdev_prefix id = vdev_key / id / ""

unfoldable pub stored_counter : String → List (String × String) → ℕ
unfolding mc_key
stored_counter id kvs = elim (lookup (mc_key id) kvs) [
  | none ↦ 0
  | some v ↦ value_of_parsed (parse_uint max_u64 v)
]

-- The time of the last mount, or the zero time.
unfoldable pub stored_time : (String → Option ℕ) → String → List (String × String) → ℕ
unfolding lu_key
stored_time parse_time id kvs = elim (lookup (lu_key id) kvs) [
  | none ↦ 0
  | some v ↦ elim (parse_time v) [ none ↦ 0 | some t ↦ t ]
]

-- The new counter. The limit is well below the longest duration, so `Sub` compares like the difference.
unfoldable pub next_counter :
    (String → Option ℕ) → String → ℕ → List (String × String) → Outcome HandlerError ℕ
unfolding stored_counter stored_time
next_counter parse_time id now [] = ok 0
next_counter parse_time id now (kv ∷ kvs) =
    if ltb now (stored_time parse_time id (kv ∷ kvs) + vdev_mount_limit)
    then err active_window
    else ok (add64 (stored_counter id (kv ∷ kvs)) 1)

unfoldable pub first_vdev : List VdevConfig → Outcome HandlerError VdevConfig
first_vdev [] = err vdev_not_found
first_vdev (v ∷ vs) = ok v

unfoldable pub or_no_token : Option String → Outcome HandlerError String
or_no_token none = err token_failed
or_no_token (some t) = ok t

unfoldable pub mount_changes : (ℕ → String) → String → ℕ → ℕ → List CommitChg
unfolding mc_key lu_key
mount_changes format_time id counter now =
    change (mc_key id) (utoa counter) ∷ change (lu_key id) (format_time now) ∷ []

unfoldable pub mounted : VdevConfig → ℕ → ℕ → String → VdevConfig
mounted v counter now token = record v {
  vdev_mount_info = record { mount_counter = counter; last_updated_lts = now };
  access_token = token;
}

module _ (rs : RangeStore) (env : Env) (enabled : Bool) (authorizer : Option Config) where
  -- `WPMountVdev`: the mount information, with the present time.
  unfoldable pub wp_mount_vdev : String → ℕ → Outcome HandlerError VdevMountInfo
  unfolding require
  wp_mount_vdev token now = do
    tc ← map_error auth (validate_token env.verify_token enabled token)
    may ← elim authorizer [
      | none ↦ ok tt
      | some cfg ↦ require (check_rbac cfg "WPMountVdev" (tc.role ∷ [])) not_authorized
    ]
    ok (record { mount_counter = 0; last_updated_lts = now })

  -- The ID of the vdev that a request names by its ID or its name.
  unfoldable pub resolve : String → rs.ds.State → Outcome HandlerError String
  unfolding or_failed named_id
  resolve id s =
      if env.is_uuid id
      then ok id
      else (do kvs ← or_failed (rs.range_read s (get_conf_key vname_key id)); ok (named_id id kvs))

  unfoldable pub may_mount : TokenClaims → String → rs.ds.State → Outcome HandlerError (Unit {0})
  unfolding require
  may_mount tc id s = elim authorizer [
    | none ↦ ok tt
    | some cfg ↦
        require
          (authorize (reader rs s) cfg "APMountVdev" tc.user_id (tc.role ∷ []) (("vdev", id) ∷ [])
            env.family)
          not_authorized
  ]

  -- Everything before the changes are applied, with the time that `WPMountVdev` took.
  unfoldable pub mount_plan :
      String → String → ℕ → rs.ds.State → Outcome HandlerError (VdevConfig × List CommitChg)
  unfolding resolve may_mount or_failed next_counter or_no_token first_vdev mount_changes mounted
      vdev_prefix
  mount_plan token req_id now s = do
    tc ← map_error auth (validate_token env.verify_token enabled token)
    id ← resolve req_id s
    may ← may_mount tc id s
    kvs ← or_failed (rs.range_read s (vdev_prefix id))
    counter ← next_counter env.parse_time id now kvs
    access ← or_no_token (env.create_token id counter now)
    v ← first_vdev (parse_entities (vdev_parser env.parse_time) 1 kvs)
    ok (mounted v counter now access, mount_changes env.format_time id counter now)

  -- `APMountVdev`
  unfoldable pub ap_mount_vdev :
      String → String → ℕ → rs.ds.State → Outcome HandlerError VdevConfig × rs.ds.State
  unfolding mount_plan commit
  ap_mount_vdev token req_id now s = commit rs (mount_plan token req_id now s) s
