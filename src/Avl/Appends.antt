-- ===== src/Avl/Appends.antt =====
-- Actions that only append to the arena, whether they succeed or fail, and rules for `do` blocks.
use tulya_checkpoint_store.Prelude.{
  ℕ, ◌≡◌, refl, sym, ◌∙◌, Bool, true, false, List, [], ◌∷◌, ◌++◌, append-nil, append_assoc,
  if◌then◌else◌, Result, ok, err,
}
use tulya_checkpoint_store.Avl.Arena.{
  AvlError, ArenaNode, Arena, arena_append_payload, arena_push_node,
}
use tulya_checkpoint_store.Avl.Action.{
  Fault, State, Action, pure, fail, lift, reading, writing, inspect, continue, ◌>>=◌,
}

-- The later arena continues both vectors of the earlier one.
pub record Extends (before after : Arena) : Type 0 where
  pub new_nodes : List ArenaNode
  pub new_payload : List ℕ
  pub nodes : after.nodes ≡ before.nodes ++ new_nodes
  pub payload : after.payload ≡ before.payload ++ new_payload

pub Extends-refl : (a : Arena) → Extends a a
Extends-refl a = record {
  new_nodes = [];
  new_payload = [];
  nodes = sym (append-nil _);
  payload = sym (append-nil _);
}

pub Extends-trans : {a b c : Arena} → Extends a b → Extends b c → Extends a c
Extends-trans {a} g k = record {
  new_nodes = g.new_nodes ++ k.new_nodes;
  new_payload = g.new_payload ++ k.new_payload;
  nodes = k.nodes ∙ rw (g.nodes) (append_assoc a.nodes g.new_nodes k.new_nodes);
  payload = k.payload ∙ rw (g.payload) (append_assoc a.payload g.new_payload k.new_payload);
}

-- An action that appends, whether it succeeds or fails.
pub record Appends {A : Type 0} (m : Action A) : Type 0 where
  pub at : (s : State) → Extends s.arena (m s).1.arena

module _ {A : Type 0} where
  pub Appends-pure : (a : A) → Appends (pure a)
  Appends-pure a = record { at = λ s. Extends-refl s.arena }

  pub Appends-fail : (e : Fault) → Appends (fail {A = A} e)
  Appends-fail e = record { at = λ s. Extends-refl s.arena }

  lift_keeps : (r : Result AvlError A) (s : State) → Extends s.arena (lift r s).1.arena
  lift_keeps (ok a) s = Extends-refl s.arena
  lift_keeps (err e) s = Extends-refl s.arena

  pub Appends-lift : (r : Result AvlError A) → Appends (lift r)
  Appends-lift r = record { at = λ s. lift_keeps r s }

  pub Appends-reading : (g : Arena → Result AvlError A) → Appends (reading g)
  Appends-reading g = record { at = λ s. lift_keeps (g s.arena) s }

  pub Appends-if :
      (b : Bool) (m n : Action A) → Appends m → Appends n → Appends (if b then m else n)
  Appends-if true m n h k = h
  Appends-if false m n h k = k

pub Appends-inspect : (n : ℕ) → Appends (inspect n)
Appends-inspect n = record { at = λ s. Extends-refl s.arena }

pub Appends-payload : (bytes : List ℕ) → Appends (writing (arena_append_payload bytes))
unfolding arena_append_payload
Appends-payload bytes = record {
  at = λ s. record {
    new_nodes = [];
    new_payload = bytes;
    nodes = sym (append-nil _);
    payload = refl;
  };
}

pub Appends-node : (node : ArenaNode) → Appends (writing (arena_push_node node))
unfolding arena_push_node
Appends-node node = record {
  at = λ s. record {
    new_nodes = node ∷ [];
    new_payload = [];
    nodes = refl;
    payload = sym (append-nil _);
  };
}

module _ {A B : Type 0} where
  continue_keeps :
      (r : Result Fault A) (f : A → Action B)
      → ((a : A) → Appends (f a))
      → (s : State) → Extends s.arena (continue r f s).1.arena
  continue_keeps (ok a) f h s = (h a).at s
  continue_keeps (err e) f h s = Extends-refl s.arena

  pub Appends-bind :
      (m : Action A) (f : A → Action B) → Appends m → ((a : A) → Appends (f a)) → Appends (m >>= f)
  unfolding ◌>>=◌
  Appends-bind m f hm hf = record {
    at = λ s. let (r, t) = m s in Extends-trans (hm.at s) (continue_keeps r f hf t);
  }

pub ruleset append_rules = (
  Appends-pure, Appends-fail, Appends-lift, Appends-reading, Appends-if, Appends-inspect,
  Appends-payload, Appends-node, Appends-bind,
)
