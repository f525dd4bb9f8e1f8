-- ===== src/Avl/Height.antt =====
-- A balanced tree is at most logarithmically high, so no height comes near the end of a `u16`.
use Prim.Native.Nat.pow
use tulya_checkpoint_store.Prelude
use tulya_checkpoint_store.Prelude.{ℕ, zero, suc, ◌+◌, ◌*◌, ◌^◌, ◌≤◌, ◌<◌, ◌≡◌, arith, u64_max, max}
use tulya_checkpoint_store.Avl.Tree.{Tree, leaf, branch, IsBalanced, height_of, len_of, len_of-pos}

-- Two levels of height double the length.
pub pow-le-len_of : (k : ℕ) (t : Tree) → IsBalanced t → 2 * k + 1 ≤ height_of t → 2 ^ k ≤ len_of t
pow-le-len_of zero t b h = len_of-pos t b
pow-le-len_of (suc k) (leaf i offset bytes) b h = absurd (omega arith)
pow-le-len_of (suc k) (branch i l r) b h =
    omega
      (arith, pow.suc 2 k, pow-le-len_of k l b.3 (omega arith), pow-le-len_of k r b.4 (omega arith))

abbrev pub max_height : ℕ
max_height = 128

pub height_of-le : (t : Tree) → IsBalanced t → len_of t ≤ u64_max → height_of t ≤ max_height
height_of-le t b h = elim (Prelude.Bool-cases (Prelude.leb (height_of t) max_height)) [
  | Prelude.inl e ↦ Prelude.leb→le _ _ e
  | Prelude.inr e ↦
      absurd (omega (arith, Prelude.leb→lt (height_of t) max_height e, pow-le-len_of 64 t b))
]
