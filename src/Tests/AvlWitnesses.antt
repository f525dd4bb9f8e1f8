-- ===== src/Tests/AvlWitnesses.antt =====
-- The theorems on the sequence at a version of three bytes in one leaf, and one of two leaves.
use tulya_checkpoint_store.Prelude.{err, ◌≢◌, ◌+◌, ◌≤◌, ◌≡◌, refl, [], ◌∷◌, some, arith, length, ok}
use tulya_checkpoint_store.Format.Records.{NodeBody, RootRecord, none_node, max_leaf_payload_bytes}
use tulya_checkpoint_store.Avl.Arena.{Arena, ArenaNode}
use tulya_checkpoint_store.Avl.Action.{State, out_of_fuel}
use tulya_checkpoint_store.Avl.Edit.{rebalance, concat, split}
use tulya_checkpoint_store.Avl.Splice.{
  SpliceResult, splice, AppendResult, append, chunks, chunks_on,
}
use tulya_checkpoint_store.Avl.Read.{read_range, verify_root_counted}
use tulya_checkpoint_store.Avl.Tree.{Tree, leaf, branch, root_of, node_of}
use tulya_checkpoint_store.Avl.Runs.{Runs}
use tulya_checkpoint_store.Avl.Pieces.{IsHeld}
use tulya_checkpoint_store.Avl.Rebalance.{Rebalances, rebalance-Runs}
use tulya_checkpoint_store.Avl.Concat.{Joins, concat-Runs}
use tulya_checkpoint_store.Avl.Sides.{Splits}
use tulya_checkpoint_store.Avl.Cuts.{split_cost}
use tulya_checkpoint_store.Avl.Split.{split-Runs}
use tulya_checkpoint_store.Avl.SpliceChecks.{splice_cost}
use tulya_checkpoint_store.Avl.SpliceLaws.{Spliced, splice-edit}
use tulya_checkpoint_store.Avl.AppendLaws.{read-append}
use tulya_checkpoint_store.Avl.VerifyEnds.{verify_root-Ends}
use tulya_checkpoint_store.Avl.Rollback.{RollsBack, splice-RollsBack}
use tulya_checkpoint_store.Avl.ReadLaws.{read_range-content, verify_root-size}
use tulya_checkpoint_store.Avl.History.{read-splice}
use tulya_checkpoint_store.Tests.Fixtures.{checksum_sha}

abbrev one : Tree
one = leaf 0 0 (1 ∷ 2 ∷ 3 ∷ [])

abbrev two : Tree
two = leaf 1 3 (4 ∷ 5 ∷ [])

abbrev both : Tree
both = branch 2 one two

abbrev store : Arena
store = record {
  payload = 1 ∷ 2 ∷ 3 ∷ 4 ∷ 5 ∷ [];
  nodes = node_of one ∷ node_of two ∷ node_of both ∷ [];
}

abbrev start : State
start = record { arena = store; inspected = 0 }

one-IsHeld : IsHeld store one
one-IsHeld = record { balanced = omega arith; stored = (refl, refl) }

two-IsHeld : IsHeld store two
two-IsHeld = record { balanced = omega arith; stored = (refl, refl) }

both-IsHeld : IsHeld store both
both-IsHeld = record {
  balanced = (omega arith, omega arith, omega arith, one-IsHeld.balanced, two-IsHeld.balanced);
  stored = (refl, one-IsHeld.stored, two-IsHeld.stored);
}

rebalance-Runs_example :
    Runs (rebalance (root_of one) (root_of two)) start (Rebalances start one two)
rebalance-Runs_example =
    rebalance-Runs one two start one-IsHeld two-IsHeld (omega arith) (omega arith) (omega arith)
      (omega arith)

concat-Runs_example : Runs (concat (root_of both) (root_of one)) start (Joins start 9 both one)
concat-Runs_example = concat-Runs both one start both-IsHeld one-IsHeld (omega arith) (omega arith)

split-Runs_example :
    Runs (split (root_of both) 4) start (Splits start (split_cost 2) max_leaf_payload_bytes 4 both)
split-Runs_example =
    split-Runs both start 4 both-IsHeld (omega arith) (omega arith) (omega arith) (omega arith)

room : length store.nodes + splice_cost (9 ∷ []) ≤ none_node
unfolding chunks chunks_on
room = omega arith

splice-edit_example :
    (result : SpliceResult) × (after : Arena) × (splice store (some (root_of both)) 1 3 (9 ∷ [])
      ≡ (ok result, after))
    × Spliced store (9 ∷ []) (1 ∷ 9 ∷ 5 ∷ []) result after
splice-edit_example =
    splice-edit store (some both) 1 3 (9 ∷ []) both-IsHeld (omega arith) (omega arith) (omega arith)
      (omega arith) (omega arith) (omega arith) room

read-splice_example :
    (result : SpliceResult) × (after : Arena) × (splice store (some (root_of both)) 1 3 (9 ∷ [])
      ≡ (ok result, after))
    × (read_range after result.root 0 result.root.logical_len ≡ ok (1 ∷ 9 ∷ 5 ∷ []))
    × (read_range after (root_of one) 0 3 ≡ ok (1 ∷ 2 ∷ 3 ∷ []))
read-splice_example =
    read-splice store (some both) 1 3 (9 ∷ []) one both-IsHeld (omega arith) (omega arith)
      (omega arith) (omega arith) (omega arith) (omega arith) room one-IsHeld (omega arith)

splice-RollsBack_example : RollsBack store (splice store (some (root_of both)) 4 9 (9 ∷ []))
splice-RollsBack_example = splice-RollsBack store (some (root_of both)) 4 9 (9 ∷ [])

read_range-content_example : read_range store (root_of both) 2 2 ≡ ok (3 ∷ 4 ∷ [])
read_range-content_example =
    read_range-content store both 2 2 both-IsHeld (omega arith) (omega arith)

verify_root-size_example : verify_root_counted store (root_of both) ≡ ok 3
verify_root-size_example = verify_root-size store both both-IsHeld (omega arith) (omega arith)

read-append_example :
    (result : AppendResult) × (after : Arena) × (append store (some (root_of both)) (9 ∷ [])
      ≡ (ok result, after))
    × (read_range after result.root 0 result.root.logical_len ≡ ok (1 ∷ 2 ∷ 3 ∷ 4 ∷ 5 ∷ 9 ∷ []))
read-append_example =
    read-append store (some both) (9 ∷ []) both-IsHeld (omega arith) (omega arith) (omega arith)
      room

-- A root whose node has itself for both children.
abbrev forged_root : RootRecord
forged_root = record { node_id = 0; logical_len = 8; height = 5; commitment = [] }

abbrev forged : Arena
forged = record {
  payload = [];
  nodes =
      ArenaNode.branch forged_root forged_root
        (record { height = 5; logical_len = 8; commitment = []; body = NodeBody.branch 0 0 4 })
      ∷ [];
}

verify_root-Ends_example : verify_root_counted forged forged_root ≢ err out_of_fuel
verify_root-Ends_example = verify_root-Ends forged forged_root
