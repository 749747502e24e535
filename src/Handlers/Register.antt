-- ===== src/Handlers/Register.antt =====
-- Applying what a write-prepare handler left: `ApplyFunc`, and `ApplyNisd`, which also registers the NISD, of
-- controlplane/ctlplanefuncs/server/srvctlplanefuncs.go. The decoded NISD is a new object: its address is a
-- parameter.
use niova_mdsvc.Prelude.{ℕ, String, Bool, ◌⊎◌, Option, List, [], Outcome, ok, err, panic, running}
use niova_mdsvc.BTree.{BTree}
use niova_mdsvc.CpLib.{Nisd}
use niova_mdsvc.Commit.{CommitChg}
use niova_mdsvc.Authorizer.{Config}
use niova_mdsvc.Session.{TokenClaims, ClaimValue, validate_and_authorize_rbac}
use niova_mdsvc.Prepare.{map_error}
use niova_mdsvc.Store.{DataStore, StoreError, apply_kv}
use niova_mdsvc.Hierarchy.{Heap, write, Hierarchy, add_nisd}
use niova_mdsvc.Handlers.{HandlerError, auth, forwarded, not_applied, not_registered, after_apply}
use niova_mdsvc.Handlers.Create.{Prepared, refused, prepared}

-- `ApplyFunc`: the ID of the response.
unfoldable pub apply_func :
    (ds : DataStore) → Prepared → ds.State → Outcome HandlerError String × ds.State
unfolding after_apply
apply_func ds (refused e) s = (err (forwarded e), s)
apply_func ds (prepared cs id) s = after_apply id (apply_kv ds cs s)

-- The changes that come with a response; an error response has none.
unfoldable pub changes_of : Prepared → List CommitChg
changes_of (refused e) = []
changes_of (prepared cs id) = cs

module _ (bt : BTree) (ds : DataStore) (h : Heap) (hr : Hierarchy bt) (p : ℕ) (nisd : Nisd) where
  abbrev pub Registered : Type 0
  Registered = Outcome HandlerError Prepared × ds.State × Heap × Hierarchy bt

  -- `ApplyNisd` behind the writes. Nothing here looks at what the response is.
  unfoldable pub after_nisd_writes :
      Prepared → Outcome StoreError (Unit {0}) × ds.State → Registered
  after_nisd_writes left (ok u, s) = elim (add_nisd bt (write h p nisd) p hr) [
    | ok hr' ↦ (ok left, s, write h p nisd, hr')
    | err e ↦ (err (not_registered e), s, h, hr)
    | panic ↦ (panic, s, h, hr)
    | running ↦ (running, s, h, hr)
  ]
  after_nisd_writes left (err e, s) = (err (not_applied e), s, h, hr)
  after_nisd_writes left (panic, s) = (panic, s, h, hr)
  after_nisd_writes left (running, s) = (running, s, h, hr)

  unfoldable pub after_nisd_token :
      Prepared → ds.State → Outcome HandlerError TokenClaims → Registered
  unfolding after_nisd_writes changes_of
  after_nisd_token left s (ok tc) = after_nisd_writes left (apply_kv ds (changes_of left) s)
  after_nisd_token left s (err e) = (err e, s, h, hr)
  after_nisd_token left s panic = (panic, s, h, hr)
  after_nisd_token left s running = (running, s, h, hr)

  -- `ApplyNisd`
  unfoldable pub apply_nisd :
      (String → String ⊎ List (String × ClaimValue))
      → Bool
      → Option Config
      → String
      → Prepared
      → ds.State
      → Registered
  unfolding after_nisd_token
  apply_nisd verify_token enabled authorizer token left s = after_nisd_token left s (
      map_error auth
        (validate_and_authorize_rbac verify_token enabled authorizer token "ApplyNisd"))
