-- ===== src/Handlers/Registered.antt =====
-- What an accepted registration of a NISD leaves behind: `ApplyNisd` of
-- controlplane/ctlplanefuncs/server/srvctlplanefuncs.go.
use niova_mdsvc.Prelude.{ℕ}
use niova_mdsvc.BTree.{BTree}
use niova_mdsvc.CpLib.{Nisd}
use niova_mdsvc.Store.{DataStore}
use niova_mdsvc.Hierarchy.{Heap, Hierarchy}
use niova_mdsvc.Handlers.Register.{Registered}

module _ (bt : BTree) (ds : DataStore) (h : Heap) (hr : Hierarchy bt) (p : ℕ) (nisd : Nisd) where
  abbrev Answer : Type 0
  Answer = Registered bt ds h hr p nisd
