-- ===== src/CpLib.antt =====
-- The shared data types and constants of controlplane/ctlplanefuncs/lib/libctlplanefuncs.go.
-- A Go `int` or `int64` is its bit pattern, a number below 2 ^ 64; a `uint8` is below 256.
pub mod Domains
pub mod Entities
pub mod Blocks
pub mod Hash
pub mod Validate
pub mod Names
use niova_mdsvc.Prelude.{ℕ, ◌*◌, ◌-◌, String, List, two64}

abbrev pub chunk_size : ℕ
chunk_size = 8 * 1024 * 1024 * 1024

-- Indices of the failure-domain levels.
abbrev pub pdu_idx : ℕ
pdu_idx = 0

abbrev pub rack_idx : ℕ
rack_idx = 1

abbrev pub hv_idx : ℕ
hv_idx = 2

abbrev pub device_idx : ℕ
device_idx = 3

abbrev pub partition_idx : ℕ
partition_idx = 4

abbrev pub fd_max : ℕ
fd_max = 5

abbrev pub minus_one : ℕ
minus_one = two64 - 1

pub record NetworkInfo : Type 0 where
  pub ip_addr : String
  pub port : ℕ

pub record Nisd : Type 0 where
  pub peer_port : ℕ
  pub id : String
  pub failure_domain : List String
  pub total_size : ℕ
  pub available_size : ℕ
  pub socket_path : String
  pub net_info : List NetworkInfo
  pub net_info_cnt : ℕ

-- A device of the hierarchy; `nisds` holds pointers to NISDs.
pub record DeviceAlloc : Type 0 where
  pub id : String
  pub available_size : ℕ
  pub nisds : List ℕ

-- The space left of one NISD while a vdev is allocated; `ptr` is the pointer to that NISD.
pub record NisdVdevAlloc : Type 0 where
  pub available_size : ℕ
  pub ptr : ℕ

pub data ChunkType : Type 0 where
  replica_block data_block parity_block : ChunkType

-- A time is a number of nanoseconds.
pub record VdevMountInfo : Type 0 where
  pub mount_counter : ℕ
  pub last_updated_lts : ℕ

pub record VdevConfig : Type 0 where
  pub id : String
  pub name : String
  pub size : ℕ
  pub redundancy : ℕ
  pub chunk_cnt : ℕ
  pub data_blk_cnt : ℕ
  pub parity_blk_cnt : ℕ
  pub vdev_mount_info : VdevMountInfo
  pub pfs_id : String
  pub access_token : String
  pub filter_type : String
  pub filter_id : String
  pub pfs_name : String

pub record Filter : Type 0 where
  pub id : String
  pub type : ℕ

pub record VdevReq : Type 0 where
  pub vdev : VdevConfig
  pub filter : Filter
