-- ===== src/Store.antt =====
-- `applyKV` and `deleteKV` of controlplane/ctlplanefuncs/server/srvctlplanefuncs.go on the data store of
-- github.com/00pauln00/niova-pumicedb, which is a parameter: one column family, writes and deletions that
-- may fail and then change nothing.
pub mod Applied
pub mod Table
pub mod Ranges
pub mod Pairs
use niova_mdsvc.Prelude.{
  String, ◌≡◌, Option, none, some, List, [], ◌∷◌, Outcome, ok, err, str_eq, if◌then◌else◌,
}
use niova_mdsvc.Commit.{Op, apply, delete, unknown, CommitChg}

pub record DataStore : Type 1 where
  pub State : Type 0
  pub read : String → State → Option String
  pub write : String → String → State → Option State
  pub delete : String → State → Option State
  pub read-write :
      (k v : String) (s s' : State)
      → write k v s ≡ some s'
      → (j : String) → read j s' ≡ (if str_eq k j then some v else read j s)
  pub read-delete :
      (k : String) (s s' : State)
      → delete k s ≡ some s'
      → (j : String) → read j s' ≡ (if str_eq k j then none else read j s)

-- What `RangeRead` gives for a prefix: the pairs whose key has it, no such key, or another error.
pub data RangeRead : Type 0 where
  found : List (String × String) → RangeRead
  key_not_found range_read_failure : RangeRead

pub data StoreError : Type 0 where
  failed_to_apply unknown_operation failed_to_delete : String → StoreError

module _ (ds : DataStore) where
  -- `applyKV`: the result, and the store that is left.
  unfoldable pub apply_kv : List CommitChg → ds.State → Outcome StoreError Unit × ds.State
  apply_kv [] s = (ok tt, s)
  apply_kv (c ∷ cs) s = elim c.op [
    | apply ↦ elim (ds.write c.key c.value s) [
      | none ↦ (err (failed_to_apply c.key), s)
      | some s' ↦ apply_kv cs s'
    ]
    | delete ↦ elim (ds.delete c.key s) [
      | none ↦ (err (failed_to_apply c.key), s)
      | some s' ↦ apply_kv cs s'
    ]
    | unknown ↦ (err (unknown_operation c.key), s)
  ]

  -- `deleteKV`; the source ends the process on a failure.
  unfoldable pub delete_kv : List CommitChg → ds.State → Outcome StoreError Unit × ds.State
  delete_kv [] s = (ok tt, s)
  delete_kv (c ∷ cs) s = elim (ds.delete c.key s) [
    | none ↦ (err (failed_to_delete c.key), s)
    | some s' ↦ delete_kv cs s'
  ]
