-- ===== src/Avl/History.antt =====
-- A version reads back after the edit that makes it, and every older version reads as before.
use tulya_checkpoint_store.Prelude.{
  ℕ, ◌+◌, ◌-◌, ◌*◌, ◌≤◌, ◌<◌, ◌≡◌, ap, ◌∙◌, List, Option, arith, length, u64_max, ok,
}
use tulya_checkpoint_store.Format.Records.{Sha256, none_node, max_leaf_payload_bytes}
use tulya_checkpoint_store.Avl.Arena.{Arena}
use tulya_checkpoint_store.Avl.Splice.{SpliceResult, splice}
use tulya_checkpoint_store.Avl.Read.{read_range}
use tulya_checkpoint_store.Avl.Tree.{Tree, content, len_of, root_of, len_of-eq}
use tulya_checkpoint_store.Avl.Pieces.{IsHeld, IsHeld-Grows}
use tulya_checkpoint_store.Avl.Sides.{content?, root?, IsHeld?}
use tulya_checkpoint_store.Avl.SpliceChecks.{edit, length-edit, splice_cost}
use tulya_checkpoint_store.Avl.SpliceLaws.{splice-edit}
use tulya_checkpoint_store.Avl.ReadLaws.{read_all}

module _ ⦃sha : Sha256⦄ where
  -- After a splice that has the room it needs, the new root reads as the edited bytes, and every
  -- version held before reads as the bytes that it had.
  pub read-splice :
      (arena : Arena) (parent : Option Tree) (offset delete_len : ℕ) (insert : List ℕ)
      (older : Tree)
      → IsHeld? arena parent
      → offset + delete_len ≤ length (content? parent)
      → length (content? parent) ≤ u64_max
      → 0 < delete_len + length insert
      → 0 < length (content? parent) - delete_len + length insert
      → length (content? parent) - delete_len + length insert ≤ u64_max
      → length arena.payload + length insert + 2 * max_leaf_payload_bytes ≤ u64_max
      → length arena.nodes + splice_cost insert ≤ none_node
      → IsHeld arena older
      → len_of older ≤ u64_max
      → (result : SpliceResult) × (after : Arena) × (splice arena
            (root? parent)
            offset
            delete_len
            insert
          ≡ (ok result, after))
        × (read_range after result.root 0 result.root.logical_len
            ≡ ok (edit (content? parent) offset delete_len insert))
        × (read_range after (root_of older) 0 (len_of older) ≡ ok (content older))
  read-splice arena parent offset delete_len insert older held within n effect some_left fits small
        room old m =
      let (result, after, e, r) =
        splice-edit arena parent offset delete_len insert held within n effect some_left fits small
          room in
      (
        result,
        after,
        e,
        rw (r.is_root) (
            read_all after r.tree r.held (
              omega (
                arith,
                len_of-eq r.tree,
                ap length r.bytes_eq,
                length-edit (content? parent) offset delete_len insert within,
              ))
            ∙ ap ok r.bytes_eq),
        read_all after older (IsHeld-Grows r.grows older old) m,
      )
