-- ===== src/CpLib/Hash.antt =====
-- `NisdAllocHash` of controlplane/ctlplanefuncs/lib/libctlplanefuncs.go.
use Prim.Native.Nat.{bit_xor}
use Prim.Native.Char.{code}
use niova_mdsvc.Prelude.{ℕ, ◌*◌, ◌%◌, String, ◌≡◌, refl, two64}

fnv_round : ℕ → ℕ → ℕ
fnv_round h byte = (bit_xor h byte * 1099511628211) % two64

fnv_bytes : ℕ → String → ℕ
unfolding fnv_round
fnv_bytes h String.[] = h
fnv_bytes h (String.◌∷◌ c s) = fnv_bytes (fnv_round h (code c)) s

-- `NisdAllocHash`, FNV-1a of 64 bits; the texts that are hashed are ASCII.
unfoldable pub nisd_alloc_hash : String → ℕ
unfolding fnv_bytes
nisd_alloc_hash s = fnv_bytes 14695981039346656037 s

hash_of_a : nisd_alloc_hash "a" ≡ 0xaf63dc4c8601ec8c
unfolding nisd_alloc_hash
hash_of_a = refl
