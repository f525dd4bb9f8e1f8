-- ===== src/Tests/AvlRuns.antt =====
-- Runs of the sequence on small inputs.
use tulya_checkpoint_store.Prelude.{ℕ, List, [], ◌∷◌, Option, none, some, Result, ok, ◌>>=◌}
use tulya_checkpoint_store.Format.Records.{RootRecord}
use tulya_checkpoint_store.Avl.Arena.{Arena, empty}
use tulya_checkpoint_store.Avl.Action.{Fault}
use tulya_checkpoint_store.Avl.Splice.{splice}
use tulya_checkpoint_store.Avl.Read.{read_range, verify_root_counted}
use tulya_checkpoint_store.Tests.Fixtures.{checksum_sha}

-- Edits one after the other, each on the root before it, and the bytes of the last root.
replay : Arena → Option RootRecord → List (ℕ × ℕ × List ℕ) → Result Fault (List ℕ × ℕ)
replay arena none [] = ok ([], 0)
replay arena (some root) [] = do
  bytes ← read_range arena root 0 root.logical_len
  count ← verify_root_counted arena root
  ok (bytes, count)
replay arena parent ((offset, delete_len, insert) ∷ rest) =
    let (r, arena') = splice arena parent offset delete_len insert in
    r >>= λ result. replay arena' (some result.root) rest

edits : Result Fault (List ℕ × ℕ)
edits =
    replay empty none
      ((0, 0, 1 ∷ 2 ∷ 3 ∷ []) ∷ (3, 0, 4 ∷ 5 ∷ []) ∷ (1, 3, 9 ∷ []) ∷ (0, 0, 7 ∷ 8 ∷ []) ∷ [])
