-- ===== src/Handlers.antt =====
-- The handlers of controlplane/ctlplanefuncs/server/srvctlplanefuncs.go that read the store and apply changes
-- to it. A request is decoded and an answer is not encoded; a handler that writes gives the store that is left
-- beside its outcome.
pub mod Mount
pub mod Committed
pub mod Named
pub mod Mounted
pub mod Spaced
pub mod Delete
pub mod Refunds
pub mod Gathered
pub mod Paged
pub mod DeletedKeys
pub mod Deleted
pub mod Create
pub mod Sizes
pub mod Planned
pub mod Created
pub mod Unchanged
pub mod Register
pub mod Registered
pub mod Read
pub mod Listings
pub mod FileSystem
use niova_mdsvc.Prelude.{ℕ, String, Bool, ◌⊎◌, Option, Outcome, ok, err, panic, running, List}
use niova_mdsvc.Commit.{CommitChg}
use niova_mdsvc.Hierarchy.{Error}
use niova_mdsvc.Session.{AuthError, ClaimValue}
use niova_mdsvc.Prepare.{PrepareError}
use niova_mdsvc.Store.{StoreError, apply_kv}
use niova_mdsvc.Store.Ranges.{RangeStore}

-- What the handlers take from other libraries and from the set-up of the process: the verification of a
-- token, `uuid.Validate`, the text form of a time, the making of a mount's token from a vdev's ID, its counter
-- and the time, and the column family.
pub record Env : Type 0 where
  pub verify_token : String → String ⊎ List (String × ClaimValue)
  pub is_uuid : String → Bool
  pub parse_time : String → Option ℕ
  pub format_time : ℕ → String
  pub create_token : String → ℕ → ℕ → Option String
  pub family : String

pub data HandlerError : Type 0 where
  auth : AuthError → HandlerError
  not_authorized range_read_failed invalid_request : HandlerError
  active_window token_failed vdev_not_found : HandlerError
  not_applied : StoreError → HandlerError
  not_refunded not_allocated not_registered : Error → HandlerError
  forwarded : PrepareError → HandlerError
  name_taken pfs_not_found : String → HandlerError
  offset_not_read bad_offset not_created : HandlerError

-- `if err != nil { return ctlplfl.FuncError(err) }` behind `applyKV`.
unfoldable pub after_apply :
    {A S : Type 0} → A → Outcome StoreError (Unit {0}) × S → Outcome HandlerError A × S
after_apply a (ok u, s) = (ok a, s)
after_apply a (err e, s) = (err (not_applied e), s)
after_apply a (panic, s) = (panic, s)
after_apply a (running, s) = (running, s)

-- The outcome of a handler that prepares changes and applies them.
unfoldable pub commit :
    {A : Type 0} (rs : RangeStore)
    → Outcome HandlerError (A × List CommitChg)
    → rs.ds.State
    → Outcome HandlerError A × rs.ds.State
unfolding after_apply
commit rs (ok (a, cs)) s = after_apply a (apply_kv rs.ds cs s)
commit rs (err e) s = (err e, s)
commit rs panic s = (panic, s)
commit rs running s = (running, s)
