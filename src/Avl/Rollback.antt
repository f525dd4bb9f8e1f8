-- ===== src/Avl/Rollback.antt =====
-- Whatever the arena holds, every step of an edit only appends; so the rollback of a failed splice
-- restores the arena exactly.
use tulya_checkpoint_store.Prelude.{
  ℕ, zero, suc, ◌+◌, ◌≡◌, refl, List, [], ◌∷◌, Option, none, some, arith, length, take-append_left,
  take_all, Result, ok, err,
}
use tulya_checkpoint_store.Format.Records.{Sha256, RootRecord}
use tulya_checkpoint_store.Avl.Arena.{AvlError, ArenaNode, Arena, arena_truncate}
use tulya_checkpoint_store.Avl.Action.{Fault, raised, State, Action}
use tulya_checkpoint_store.Avl.Edit.{
  append_payload, push_node, allocate_node, allocate_leaf, allocate_branch, branch_children,
  rotate_left_high, rotate_right_high, rebalance, concat_on, concat, concat_optional,
  join_near_right, join_left_near, split_leaf, split_node, split_on, split,
}
use tulya_checkpoint_store.Avl.Splice.{
  SpliceResult, allocate_leaves, pair_level, pair_rounds, build_insert_subtree, build_middle,
  right_of_deleted, splice_root, splice_inner, finish_splice, splice, check_splice,
}
use tulya_checkpoint_store.Avl.Appends.{Extends, Appends, append_rules, Appends-bind, Appends-pure}

append_payload-Appends : (bytes : List ℕ) → Appends (append_payload bytes)
unfolding append_payload
append_payload-Appends bytes = search append_rules

push_node-Appends : (node : ArenaNode) → Appends (push_node node)
unfolding push_node
push_node-Appends node = search append_rules

allocate_node-Appends : (node : ArenaNode) → Appends (allocate_node node)
unfolding allocate_node
allocate_node-Appends node = search (append_rules, push_node-Appends) depth 9

branch_children-Appends : (root : RootRecord) → Appends (branch_children root)
unfolding branch_children
branch_children-Appends root = search append_rules depth 9

module _ ⦃sha : Sha256⦄ where
  allocate_leaf-Appends : (bytes : List ℕ) → Appends (allocate_leaf bytes)
  unfolding allocate_leaf
  allocate_leaf-Appends bytes =
      search (append_rules, append_payload-Appends, allocate_node-Appends) depth 9

  allocate_branch-Appends : (l r : RootRecord) → Appends (allocate_branch l r)
  unfolding allocate_branch
  allocate_branch-Appends l r = search (append_rules, allocate_node-Appends) depth 9

  rotate_left_high-Appends : (l r : RootRecord) → Appends (rotate_left_high l r)
  unfolding rotate_left_high
  rotate_left_high-Appends l r =
      search (append_rules, branch_children-Appends, allocate_branch-Appends) depth 9

  rotate_right_high-Appends : (l r : RootRecord) → Appends (rotate_right_high l r)
  unfolding rotate_right_high
  rotate_right_high-Appends l r =
      search (append_rules, branch_children-Appends, allocate_branch-Appends) depth 9

  rebalance-Appends : (l r : RootRecord) → Appends (rebalance l r)
  unfolding rebalance
  rebalance-Appends l r =
      search
        (append_rules, rotate_left_high-Appends, rotate_right_high-Appends, allocate_branch-Appends)

  concat_on-Appends : (fuel : ℕ) (l r : RootRecord) → Appends (concat_on fuel l r)
  unfolding concat_on
  concat_on-Appends zero l r = search append_rules
  concat_on-Appends (suc fuel) l r =
      let rec = concat_on-Appends fuel in
      search
        (append_rules, branch_children-Appends, allocate_branch-Appends, rebalance-Appends, rec)
        depth 9

  concat-Appends : (l r : RootRecord) → Appends (concat l r)
  unfolding concat
  concat-Appends l r = concat_on-Appends (suc (l.height + r.height)) l r

  concat_optional-Appends : (l r : Option RootRecord) → Appends (concat_optional l r)
  unfolding concat_optional
  concat_optional-Appends none none = search append_rules
  concat_optional-Appends none (some r) = search append_rules
  concat_optional-Appends (some l) none = search append_rules
  concat_optional-Appends (some l) (some r) = search (append_rules, concat-Appends)

  join_near_right-Appends :
      (near : Option RootRecord) (r : RootRecord) → Appends (join_near_right near r)
  unfolding join_near_right
  join_near_right-Appends none r = search append_rules
  join_near_right-Appends (some near) r = concat-Appends near r

  join_left_near-Appends :
      (l : RootRecord) (near : Option RootRecord) → Appends (join_left_near l near)
  unfolding join_left_near
  join_left_near-Appends l none = search append_rules
  join_left_near-Appends l (some near) = concat-Appends l near

  split_leaf-Appends : (start len offset : ℕ) → Appends (split_leaf start len offset)
  unfolding split_leaf
  split_leaf-Appends start len offset = search (append_rules, allocate_leaf-Appends) depth 9

  split_node-Appends :
      (cut : RootRecord → ℕ → Action (Option RootRecord × Option RootRecord))
      → ((root : RootRecord) (offset : ℕ) → Appends (cut root offset))
      → (node : ArenaNode) (offset : ℕ) → Appends (split_node cut node offset)
  unfolding split_node
  split_node-Appends cut rec (ArenaNode.leaf start len node) offset =
      split_leaf-Appends start len offset
  split_node-Appends cut rec (ArenaNode.branch l r node) offset =
      search (append_rules, rec, join_near_right-Appends, join_left_near-Appends) depth 9

  split_on-Appends :
      (fuel : ℕ) (root : RootRecord) (offset : ℕ) → Appends (split_on fuel root offset)
  unfolding split_on
  split_on-Appends zero root offset = search append_rules
  split_on-Appends (suc fuel) root offset =
      let rec = split_node-Appends (split_on fuel) (split_on-Appends fuel) in
      search (append_rules, rec) depth 9

  split-Appends : (root : RootRecord) (offset : ℕ) → Appends (split root offset)
  unfolding split
  split-Appends root offset = split_on-Appends (suc root.height) root offset

  allocate_leaves-Appends : (level : List (List ℕ)) → Appends (allocate_leaves level)
  unfolding allocate_leaves
  allocate_leaves-Appends [] = search append_rules
  allocate_leaves-Appends (chunk ∷ rest) =
      Appends-bind _ _ (allocate_leaf-Appends chunk)
        (λ leaf. Appends-bind _ _ (allocate_leaves-Appends rest) (λ level. Appends-pure _))

  pair_level-Appends : (level : List RootRecord) → Appends (pair_level level)
  unfolding pair_level
  pair_level-Appends [] = search append_rules
  pair_level-Appends (last ∷ []) = search append_rules
  pair_level-Appends (l ∷ r ∷ rest) =
      Appends-bind _ _ (concat-Appends l r)
        (λ root. Appends-bind _ _ (pair_level-Appends rest) (λ next. Appends-pure _))

  pair_rounds-Appends : (fuel : ℕ) (level : List RootRecord) → Appends (pair_rounds fuel level)
  unfolding pair_rounds
  pair_rounds-Appends fuel [] = search append_rules
  pair_rounds-Appends fuel (root ∷ []) = search append_rules
  pair_rounds-Appends zero (l ∷ r ∷ rest) = search append_rules
  pair_rounds-Appends (suc fuel) (l ∷ r ∷ rest) =
      let rec = pair_rounds-Appends fuel in
      let level = pair_level-Appends (l ∷ r ∷ rest) in search (append_rules, level, rec)

  build_middle-Appends : (insert : List ℕ) → Appends (build_middle insert)
  unfolding build_middle build_insert_subtree
  build_middle-Appends insert =
      search (append_rules, allocate_leaves-Appends, pair_rounds-Appends) depth 9

  right_of_deleted-Appends :
      (mid : Option RootRecord) (delete_len : ℕ) → Appends (right_of_deleted mid delete_len)
  unfolding right_of_deleted
  right_of_deleted-Appends none delete_len = search append_rules
  right_of_deleted-Appends (some mid) delete_len = search (append_rules, split-Appends)

  splice_root-Appends :
      (middle parent : Option RootRecord) (offset delete_len : ℕ)
      → Appends (splice_root middle parent offset delete_len)
  unfolding splice_root
  splice_root-Appends middle none offset delete_len = search append_rules
  splice_root-Appends middle (some root) offset delete_len =
      search (append_rules, split-Appends, right_of_deleted-Appends, concat_optional-Appends) depth
        9

  splice_inner-Appends :
      (parent : Option RootRecord) (offset delete_len : ℕ) (insert : List ℕ)
      → Appends (splice_inner parent offset delete_len insert)
  unfolding splice_inner
  splice_inner-Appends parent offset delete_len insert =
      search (append_rules, build_middle-Appends, splice_root-Appends) depth 9

truncate_extended :
    (a b : Arena) → Extends a b → arena_truncate (length a.payload) (length a.nodes) b ≡ a
unfolding arena_truncate
truncate_extended a b g = cc (
  g.nodes,
  g.payload,
  take-append_left (length a.nodes) a.nodes g.new_nodes (omega arith),
  take-append_left (length a.payload) a.payload g.new_payload (omega arith),
  take_all (length a.nodes) a.nodes (omega arith),
  take_all (length a.payload) a.payload (omega arith),
)

-- What a call leaves behind: the arena as it was after an error, and one that continues it after
-- success.
abbrev pub RollsBack : {A : Type 0} → Arena → Result Fault A × Arena → Type 0
RollsBack before (ok a, after) = Extends before after
RollsBack before (err e, after) = after ≡ before

module _ ⦃sha : Sha256⦄ where
  finish_splice-RollsBack :
      (arena : Arena) (r : Result Fault RootRecord) (s : State)
      → Extends arena s.arena
      → RollsBack arena (finish_splice arena (r, s))
  unfolding finish_splice
  finish_splice-RollsBack arena (ok root) s g = g
  finish_splice-RollsBack arena (err e) s g = truncate_extended arena s.arena g

  -- For every arena and every argument, forged roots included, a splice that fails leaves the arena
  -- as it was, and one that succeeds leaves every old node and payload byte in its place.
  pub splice-RollsBack :
      (arena : Arena) (parent : Option RootRecord) (offset delete_len : ℕ) (insert : List ℕ)
      → RollsBack arena (splice arena parent offset delete_len insert)
  unfolding splice
  splice-RollsBack arena parent offset delete_len insert =
      go (check_splice arena parent offset delete_len insert)
    where
      go :
          (c : Result AvlError (Unit {0}))
          → RollsBack {A = SpliceResult} arena (elim c [
            | err e ↦ (err (raised e), arena)
            | ok _ ↦ finish_splice arena (
                splice_inner parent offset delete_len insert
                  (record { arena = arena; inspected = 0 }))
          ])
      go (err e) = refl
      go (ok u) = finish_splice-RollsBack arena _ _ (
          (splice_inner-Appends parent offset delete_len insert).at
            (record { arena = arena; inspected = 0 }))
