-- ===== src/CpLib/Blocks.antt =====
-- How many chunks a vdev has, and how many blocks a chunk has, in
-- controlplane/ctlplanefuncs/lib/libctlplanefuncs.go.
use niova_mdsvc.Prelude.{
  ℕ, ◌+◌, ◌-◌, ◌*◌, ◌/◌, ◌%◌, ◌^◌, ◌<◌, ◌≤◌, ◌≡◌, ◌≢◌, ◌↔◌, Bool, not, arith, ltb, ◌==◌, slt64,
  if◌then◌else◌, two63, two64,
}
use niova_mdsvc.CpLib.{VdevConfig, chunk_size}

-- Go's `/` and `%` on int64 by a positive number: they round towards zero.
abbrev pub sdiv64 : ℕ → ℕ → ℕ
sdiv64 a c = if ltb a two63 then a / c else (two64 - (two64 - a) / c) % two64

abbrev pub srem64 : ℕ → ℕ → ℕ
srem64 a c = if ltb a two63 then a % c else (two64 - (two64 - a) % c) % two64

unfoldable pub count_8gb_chunks : ℕ → ℕ
count_8gb_chunks size =
    let rem = srem64 size chunk_size in
    let count = sdiv64 size chunk_size in if rem == 0 then count else (count + 1) % two64

-- The chunk count of a vdev, `uint32(Count8GBChunks(v.Size))`.
unfoldable pub init_chunk_cnt : VdevConfig → VdevConfig
init_chunk_cnt v = record v { chunk_cnt = count_8gb_chunks v.size % 2 ^ 32 }

abbrev pub rm_replica : ℕ
rm_replica = 0

abbrev pub rm_ec32k : ℕ
rm_ec32k = 1

unfoldable pub is_ec : ℕ → Bool
is_ec r = not (slt64 r rm_ec32k)

-- `DataBlkCnt + ParityBlkCnt` is added in uint8.
unfoldable pub total_redundancy_blocks_per_chunk : VdevConfig → ℕ
total_redundancy_blocks_per_chunk v =
    if v.redundancy == rm_replica then v.data_blk_cnt else (v.data_blk_cnt + v.parity_blk_cnt) % 256

-- For a size that is no negative int64 the chunk count of a vdev is the least number of chunks that cover
-- it, and the conversion to uint32 loses nothing.
pub init_chunk_cnt_covers :
    (v : VdevConfig)
    → v.size < two63
    → (v.size ≤ (init_chunk_cnt v).chunk_cnt * chunk_size)
      × ((init_chunk_cnt v).chunk_cnt * chunk_size < v.size + chunk_size)
unfolding init_chunk_cnt count_8gb_chunks
init_chunk_cnt_covers v h = ground arith

-- With block counts below 256, a replica chunk has its data blocks, and any other chunk has all its data
-- and parity blocks exactly when they are fewer than 256 together.
pub total_redundancy_blocks_exact :
    (v : VdevConfig)
    → v.data_blk_cnt < 256
    → v.parity_blk_cnt < 256
    → (v.redundancy ≡ rm_replica → total_redundancy_blocks_per_chunk v ≡ v.data_blk_cnt)
      × (v.redundancy ≢ rm_replica
          → (total_redundancy_blocks_per_chunk v ≡ v.data_blk_cnt + v.parity_blk_cnt)
            ↔ (v.data_blk_cnt + v.parity_blk_cnt < 256))
unfolding total_redundancy_blocks_per_chunk
total_redundancy_blocks_exact v d p =
    (λ r. ground arith, λ r. ((λ e. ground arith), (λ l. ground arith)))
