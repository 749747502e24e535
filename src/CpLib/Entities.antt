-- ===== src/CpLib/Entities.antt =====
-- The entities that the control plane stores, of controlplane/ctlplanefuncs/lib/libctlplanefuncs.go. The lists
-- of children are left out where nothing that is modelled reads them.
use niova_mdsvc.Prelude.{ℕ, String, Bool, List}
use niova_mdsvc.CpLib.{ChunkType}

pub record DevicePartition : Type 0 where
  pub partition_id : String
  pub partition_path : String
  pub nisd_uuid : String
  pub dev_id : String
  pub size : ℕ

pub record Device : Type 0 where
  pub id : String
  pub name : String
  pub device_path : String
  pub serial_number : String
  pub state : ℕ
  pub size : ℕ
  pub hypervisor_id : String
  pub failure_domain : String
  pub partitions : List DevicePartition

pub record NisdArgs : Type 0 where
  pub defrag : Bool
  pub allow_defrag_mcib_cache : Bool
  pub mbc_cnt : ℕ
  pub merge_h_cnt : ℕ
  pub mcib_read_cache : ℕ
  pub s3 : String
  pub dsync : String

pub record Pdu : Type 0 where
  pub id : String
  pub name : String
  pub location : String
  pub power_capacity : String
  pub specification : String

pub record Rack : Type 0 where
  pub id : String
  pub name : String
  pub pdu_id : String
  pub location : String
  pub specification : String

pub record Hypervisor : Type 0 where
  pub id : String
  pub rack_id : String
  pub name : String
  pub ip_addrs : List String
  pub port_range : String
  pub ssh_port : String
  pub rdma_enabled : Bool

pub record ChunkPlacement : Type 0 where
  pub sequence : ℕ
  pub type : ChunkType
  pub nisd_id : String

pub record Chunk : Type 0 where
  pub index : ℕ
  pub redundancy : ℕ
  pub placements : List ChunkPlacement

pub record ChunkNisd : Type 0 where
  pub nisd_ids : String
