-- ===== src/CpLib/Domains.antt =====
-- Failure-domain levels and chunk types of controlplane/ctlplanefuncs/lib/libctlplanefuncs.go.
use niova_mdsvc.Prelude.{
  ℕ, ◌-◌, String, ◌≡◌, ◌&&◌, Outcome, ok, err, arith, slt64, add64, leb, ◌==◌, if◌then◌else◌,
}
use niova_mdsvc.CpLib.{
  ChunkType, replica_block, data_block, parity_block, minus_one, pdu_idx, rack_idx, hv_idx,
  device_idx, partition_idx,
}

-- The constants of type FD.
abbrev pub fd_any : ℕ
fd_any = 0

abbrev pub fd_pdu : ℕ
fd_pdu = 1

abbrev pub fd_rack : ℕ
fd_rack = 2

abbrev pub fd_hv : ℕ
fd_hv = 3

abbrev pub fd_device : ℕ
fd_device = 4

abbrev pub fd_partition : ℕ
fd_partition = 5

unfoldable pub get_fd_idx : ℕ → ℕ
get_fd_idx t =
    if t == fd_pdu
    then pdu_idx
    else if t == fd_rack
    then rack_idx
    else if t == fd_hv
    then hv_idx
    else if t == fd_device
    then device_idx
    else if t == fd_partition
    then partition_idx
    else minus_one

unfoldable pub fd_name : ℕ → String
fd_name t =
    if t == fd_pdu
    then "pdu"
    else if t == fd_rack
    then "rack"
    else if t == fd_hv
    then "hv"
    else if t == fd_device
    then "device"
    else if t == fd_partition
    then "partition"
    else "any"

-- The letter of a block type in a key.
unfoldable pub chunk_prefix : ChunkType → String
chunk_prefix replica_block = "D"
chunk_prefix data_block = "D"
chunk_prefix parity_block = "P"

pub data DomainError : Type 0 where
  max_failure_domain_reached : ℕ → DomainError

unfoldable pub next_failure_domain : ℕ → Outcome DomainError ℕ
next_failure_domain fd =
    if slt64 fd partition_idx then ok (add64 fd 1) else err (max_failure_domain_reached fd)

-- A level is an index exactly for the five named levels, its number less one; any other value has no
-- index, in particular `FD_ANY`.
pub get_fd_idx_cases :
    (t : ℕ) → get_fd_idx t ≡ (if leb fd_pdu t && leb t fd_partition then t - 1 else minus_one)
unfolding get_fd_idx
get_fd_idx_cases t = ground arith
