-- ===== src/Avl/VerifyEnds.antt =====
-- Verification ends on every arena: a validated branch is higher than its children, so that no cycle
-- of nodes, however the arena was forged, is followed for ever.
use mathlib.Core.Bool.{decide_iff}
use tulya_checkpoint_store.Prelude.{
  ℕ, zero, suc, ◌+◌, ◌<◌, ◌≡◌, ◌≢◌, refl, sym, ap, ◌∙◌, max, true, arith, Result, ok, err, ◌>>=◌,
  ◌>>◌, map_err, bind_inv, reject_inv, true_of_not, saturating_add,
}
use tulya_checkpoint_store.Format.Records.{
  Sha256, FormatError, NodeRecord, RootRecord, NodeRecord-discrete, RootRecord-discrete,
}
use tulya_checkpoint_store.Format.Build
use tulya_checkpoint_store.Format.Build.{from_node}
use tulya_checkpoint_store.Format.RoundTrips.{branch_inv}
use tulya_checkpoint_store.Avl.Arena.{
  AvlError, format, ArenaNode, Arena, record_of, same_root, same_node, node_for_root, validate_node,
}
use tulya_checkpoint_store.Avl.Action.{Fault, raised, out_of_fuel}
use tulya_checkpoint_store.Avl.Read.{verify_node, verify_root_counted}

pub same_root-eq : (a b : RootRecord) → same_root a b ≡ true → a ≡ b
unfolding same_root
same_root-eq a b h = (decide_iff (RootRecord-discrete a b)).0 h

pub same_node-eq : (a b : NodeRecord) → same_node a b ≡ true → a ≡ b
unfolding same_node
same_node-eq a b h = (decide_iff (NodeRecord-discrete a b)).0 h

format_inv : {A : Type 0} (r : Result FormatError A) {a : A} → map_err format r ≡ ok a → r ≡ ok a
format_inv (ok a) h = ground arith
format_inv (err e) h = absurd (cc h)

-- A node that answers for a root has the root's height.
node_for_root-height :
    (arena : Arena) (root : RootRecord) (node : ArenaNode)
    → node_for_root arena root ≡ ok node
    → (record_of node).height ≡ root.height
unfolding node_for_root from_node
node_for_root-height arena root node h =
    let canonical : RootRecord = record {
      node_id = root.node_id;
      logical_len = (record_of node).logical_len;
      height = (record_of node).height;
      commitment = (record_of node).commitment;
    } in
    let heights : same_root canonical root ≡ true → (record_of node).height ≡ root.height =
      λ e. ap (λ r. r.height) (same_root-eq canonical root e) in
    ground (arith, heights)

-- A result, or an error of the source.
abbrev pub Ends : {A : Type 0} → Result Fault A → Type 0
Ends r = r ≢ err out_of_fuel

bind-Ends :
    {A B : Type 0} (m : Result Fault A) (f : A → Result Fault B)
    → Ends m
    → ((a : A) → Ends (f a))
    → Ends (m >>= f)
bind-Ends (ok a) f m_ends f_ends = f_ends a
bind-Ends (err (raised e)) f m_ends f_ends = λ h. absurd (cc h)
bind-Ends (err out_of_fuel) f m_ends f_ends = absurd (m_ends refl)

module _ ⦃sha : Sha256⦄ where
  validate_node-height :
      (arena : Arena) (left right : RootRecord) (node : NodeRecord)
      → validate_node arena (ArenaNode.branch left right node) ≡ ok tt
      → node.height ≡ max left.height right.height + 1
  unfolding validate_node
  validate_node-height arena left right node h0 =
      let (expected, built, h1) = bind_inv h0 in
      let is_node = same_node-eq expected node (true_of_not (reject_inv _ _ h1)) in
      let (_, _, _, _, _, _, _, is_expected) =
        branch_inv left right expected (format_inv (Build.branch left right) built) in
      sym (ap (λ n. n.height) (is_expected ∙ is_node))

  validated-Ends :
      (fuel : ℕ) (arena : Arena) (root : RootRecord) (visited : ℕ) (node : ArenaNode)
      (checked : Result AvlError (Unit {0}))
      → root.height < suc fuel
      → node_for_root arena root ≡ ok node
      → validate_node arena node ≡ checked
      → ((below : RootRecord) (n : ℕ) → below.height < fuel → Ends (verify_node fuel arena below n))
      → Ends (
          map_err raised checked >> elim node [
            | ArenaNode.leaf _ _ _ ↦ ok (saturating_add visited 1)
            | ArenaNode.branch left right _ ↦
                (verify_node fuel arena left (saturating_add visited 1) >>= λ after_left.
                verify_node fuel arena right after_left)
          ])
  validated-Ends fuel arena root visited node (err e) enough is_node is_checked rest =
      λ h. absurd (cc h)
  validated-Ends fuel arena root visited (ArenaNode.leaf _ _ _) (ok u) enough is_node is_checked
        rest =
      λ h. absurd (cc h)
  validated-Ends fuel arena root visited (ArenaNode.branch left right node) (ok u) enough is_node
        is_checked rest =
      let e = node_for_root-height arena root (ArenaNode.branch left right node) is_node in
      let f = validate_node-height arena left right node is_checked in
      bind-Ends (verify_node fuel arena left (saturating_add visited 1))
        (λ after_left. verify_node fuel arena right after_left) (rest left _ (omega (arith, e, f)))
        (λ n. rest right n (omega (arith, e, f)))

  loaded-Ends :
      (fuel : ℕ) (arena : Arena) (root : RootRecord) (visited : ℕ)
      (found : Result AvlError ArenaNode)
      → root.height < suc fuel
      → node_for_root arena root ≡ found
      → ((below : RootRecord) (n : ℕ) → below.height < fuel → Ends (verify_node fuel arena below n))
      → Ends (
          map_err raised found >>= λ node. map_err raised (validate_node arena node) >> elim node [
            | ArenaNode.leaf _ _ _ ↦ ok (saturating_add visited 1)
            | ArenaNode.branch left right _ ↦
                (verify_node fuel arena left (saturating_add visited 1) >>= λ after_left.
                verify_node fuel arena right after_left)
          ])
  loaded-Ends fuel arena root visited (err e) enough is_found rest = λ h. absurd (cc h)
  loaded-Ends fuel arena root visited (ok node) enough is_found rest =
      validated-Ends fuel arena root visited node (validate_node arena node) enough is_found refl
        rest

  verify_node-Ends :
      (fuel : ℕ) (arena : Arena) (root : RootRecord) (visited : ℕ)
      → root.height < fuel
      → Ends (verify_node fuel arena root visited)
  unfolding verify_node
  verify_node-Ends zero arena root visited enough = absurd (omega arith)
  verify_node-Ends (suc fuel) arena root visited enough =
      loaded-Ends fuel arena root visited (node_for_root arena root) enough refl
        (λ below n lower. verify_node-Ends fuel arena below n lower)

  -- On every arena and for every root, forged ones included, verification ends with a count or with
  -- an error of the source: the fuel of one round for each level, and one more, is enough.
  pub verify_root-Ends :
      (arena : Arena) (root : RootRecord) → verify_root_counted arena root ≢ err out_of_fuel
  unfolding verify_root_counted
  verify_root-Ends arena root = verify_node-Ends (suc root.height) arena root 0 (omega arith)
