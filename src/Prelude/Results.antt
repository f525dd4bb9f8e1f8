-- ===== src/Prelude/Results.antt =====
-- Fallible code: `Result`, its `do` notation, early returns, and the checked operations on `u64`.
use Prim.Native.Nat.{ℕ, ◌+◌, ◌≤◌, min}
use native.Mathlib.Omega.{arith}
use mathlib.Core.Path.{◌≡◌, refl}
use mathlib.Core.Bool.{Bool, true, false, not}
use mathlib.Core.Option.{Option, none, some}
use tulya_checkpoint_store.Prelude.Tests.{leb, if◌then◌else◌}

pub data Result {ℓ κ} (E : Type ℓ) (A : Type κ) : Type (ℓ ⊔ κ) where
  ok : A → Result E A
  err : E → Result E A

infixl 5 ◌>>=◌ ◌>>◌
abbrev pub ◌>>=◌ {ℓ κ μ} :
    {E : Type ℓ} {A : Type κ} {B : Type μ} → Result E A → (A → Result E B) → Result E B
ok a >>= f = f a
err e >>= f = err e

abbrev pub ◌>>◌ {ℓ μ} : {E : Type ℓ} {B : Type μ} → Result E (Unit {0}) → Result E B → Result E B
m >> k = m >>= λ _. k

-- `if b { return Err(e); }`
abbrev pub reject {ℓ} : {E : Type ℓ} → Bool → E → Result E (Unit {0})
reject true e = err e
reject false e = ok tt

-- `option.ok_or(e)?`
abbrev pub ok_or {ℓ κ} : {E : Type ℓ} {A : Type κ} → Option A → E → Result E A
ok_or none e = err e
ok_or (some a) e = ok a

abbrev pub map_err {ℓ κ μ} :
    {E : Type ℓ} {F : Type κ} {A : Type μ} → (E → F) → Result E A → Result F A
map_err f (ok a) = ok a
map_err f (err e) = err (f e)

abbrev pub u16_max : ℕ
u16_max = 0xffff

abbrev pub u32_max : ℕ
u32_max = 0xffff_ffff

abbrev pub u64_max : ℕ
u64_max = 0xffff_ffff_ffff_ffff

-- `a.checked_add(b).ok_or(e)?` at the width whose greatest value is given.
abbrev pub checked_add {ℓ} : {E : Type ℓ} → ℕ → ℕ → ℕ → E → Result E ℕ
checked_add greatest a b e = if leb (a + b) greatest then ok (a + b) else err e

-- `try_from(n).map_err(|_| e)?` at the width whose greatest value is given.
abbrev pub try_from {ℓ} : {E : Type ℓ} → ℕ → ℕ → E → Result E ℕ
try_from greatest n e = if leb n greatest then ok n else err e

-- `a.saturating_add(b)` on a 64-bit counter.
abbrev pub saturating_add : ℕ → ℕ → ℕ
saturating_add a b = min (a + b) u64_max

-- A chain that succeeds succeeds at its first step.
pub bind_inv :
    {E A B : Type 0} {m : Result E A} {f : A → Result E B} {b : B}
    → (m >>= f) ≡ ok b
    → (a : A) × (m ≡ ok a) × (f a ≡ ok b)
bind_inv {m = ok a} h = (a, refl, h)
bind_inv {m = err e} h = absurd (cc h)

pub reject_inv : {E : Type 0} → (b : Bool) (e : E) {u : Unit {0}} → reject b e ≡ ok u → b ≡ false
reject_inv true e h = absurd (cc h)
reject_inv false e h = refl

pub true_of_not : {b : Bool} → not b ≡ false → b ≡ true
true_of_not {b = true} h = refl
true_of_not {b = false} h = absurd (cc h)

pub then_inv :
    {E B : Type 0}
    → (m : Result E (Unit {0})) {k : Result E B} {b : B} → (m >> k) ≡ ok b
    → (m ≡ ok tt) × (k ≡ ok b)
then_inv (ok tt) h = (refl, h)
then_inv (err e) h = absurd (cc h)

-- A chain that ends by returning a value returned it.
pub ok_of_then : {E B : Type 0} → (m : Result E (Unit {0})) {a b : B} → (m >> ok a) ≡ ok b → b ≡ a
ok_of_then (ok tt) h = cc h
ok_of_then (err e) h = absurd (cc h)

-- A chain that succeeds after a checked sum or a conversion had a value in range there.
pub checked_add_inv :
    {E B : Type 0}
    → (greatest a b : ℕ) (e : E) (f : ℕ → Result E B) {r : B}
    → (checked_add greatest a b e >>= f) ≡ ok r
    → (a + b ≤ greatest) × (f (a + b) ≡ ok r)
checked_add_inv greatest a b e f h = ground arith

pub try_from_inv :
    {E B : Type 0}
    → (greatest n : ℕ) (e : E) (f : ℕ → Result E B) {r : B} → (try_from greatest n e >>= f) ≡ ok r
    → (n ≤ greatest) × (f n ≡ ok r)
try_from_inv greatest n e f h = ground arith

-- A chain that succeeds after an option had a value there.
pub ok_or_inv :
    {E A B : Type 0}
    → (o : Option A) (e : E) {f : A → Result E B} {r : B} → (ok_or o e >>= f) ≡ ok r
    → (a : A) × (o ≡ some a) × (f a ≡ ok r)
ok_or_inv none e h = absurd (cc h)
ok_or_inv (some a) e h = (a, refl, h)
