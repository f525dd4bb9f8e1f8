-- ===== src/Avl/Action.antt =====
-- Code that holds `&mut arena` and `&mut inspected` and may fail. What was written before an error
-- stays written, so the state comes back beside the error too.
use tulya_checkpoint_store.Prelude.{ℕ, Result, ok, err, saturating_add}
use tulya_checkpoint_store.Avl.Arena.{AvlError, Arena}

-- The errors of the source, and the end of the fuel that bounds a recursion here.
pub data Fault : Type 0 where
  raised : AvlError → Fault
  out_of_fuel : Fault

pub record State : Type 0 where
  pub arena : Arena
  pub inspected : ℕ

abbrev pub Action {ℓ} : Type ℓ → Type ℓ
Action A = State → Result Fault A × State

abbrev pub pure {ℓ} : {A : Type ℓ} → A → Action A
pure a s = (ok a, s)

abbrev pub fail {ℓ} : {A : Type ℓ} → Fault → Action A
fail e s = (err e, s)

-- A check or a computation that reads no state.
abbrev pub lift {ℓ} : {A : Type ℓ} → Result AvlError A → Action A
lift (ok a) s = (ok a, s)
lift (err e) s = (err (raised e), s)

-- One that reads the arena.
abbrev pub reading {ℓ} : {A : Type ℓ} → (Arena → Result AvlError A) → Action A
reading f s = lift (f s.arena) s

abbrev pub writing : (Arena → Arena) → Action (Unit {0})
writing f s = (ok tt, record s { arena = f s.arena })

-- `*inspected = inspected.saturating_add(n)`
abbrev pub inspect : ℕ → Action (Unit {0})
inspect n s = (ok tt, record s { inspected = saturating_add s.inspected n })

abbrev pub continue {ℓ κ} : {A : Type ℓ} {B : Type κ} → Result Fault A → (A → Action B) → Action B
continue (ok a) f s = f a s
continue (err e) f s = (err e, s)

infixl 5 ◌>>=◌ ◌>>◌
unfoldable pub ◌>>=◌ {ℓ κ} : {A : Type ℓ} {B : Type κ} → Action A → (A → Action B) → Action B
◌>>=◌ m f s = let (r, s') = m s in continue r f s'

abbrev pub ◌>>◌ {κ} : {B : Type κ} → Action (Unit {0}) → Action B → Action B
m >> k = m >>= λ _. k
