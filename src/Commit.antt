-- ===== src/Commit.antt =====
-- The changes to the key-value store that the handlers of
-- controlplane/ctlplanefuncs/server/srvctlplanefuncs.go prepare: the key schema and `CommitChg`, the part
-- of github.com/00pauln00/niova-pumicedb that is plain data.
use Prim.Native.String.{◌++◌}
use niova_mdsvc.Prelude.{ℕ, String, List, [], ◌∷◌, itoa}
use niova_mdsvc.CpLib.{ChunkType}
use niova_mdsvc.CpLib.Domains.{chunk_prefix}

-- `OpApply` is the zero value; `unknown` stands for any other number.
pub data Op : Type 0 where
  apply delete unknown : Op

pub record CommitChg : Type 0 where
  pub key : String
  pub value : String
  pub op : Op

abbrev pub change : String → String → CommitChg
change k v = record { key = k; value = v; op = apply }

-- `fmt.Sprintf("%s/%s", a, b)` and so on.
infixr 66 ◌/◌
abbrev pub ◌/◌ : String → String → String
a / b = a ++ ("/" ++ b)

abbrev pub vdev_key : String
vdev_key = "v"

abbrev pub chunk_key : String
chunk_key = "c"

abbrev pub nisd_key : String
nisd_key = "n"

abbrev pub nisd_cfg_key : String
nisd_cfg_key = "n_cfg"

abbrev pub avail_space : String
avail_space = "as"

unfoldable pub get_conf_key : String → String → String
get_conf_key cfg_type id = cfg_type / id

unfoldable pub get_vdev_chunk_key : String → String
get_vdev_chunk_key id = vdev_key / id / chunk_key

-- `genAllocationKV`: the placement of a block, and the NISD's reverse key.
unfoldable pub gen_allocation_kv : String → String → ChunkType → String → ℕ → List CommitChg
unfolding get_vdev_chunk_key chunk_prefix
gen_allocation_kv id chunk type nisd_id i =
    let block = chunk_prefix type ++ ("." ++ itoa i) in
    change (get_vdev_chunk_key id / chunk / block) nisd_id
    ∷ change (nisd_key / nisd_id / id) (block ++ ("." ++ chunk))
    ∷ []
