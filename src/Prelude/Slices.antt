-- ===== src/Prelude/Slices.antt =====
-- Ranges of a list: when `slice` succeeds, what it returns, and ranges inside a range.
use Prim.Native.Nat.{ℕ, zero, suc, ◌+◌, ◌-◌, ◌≤◌}
use mathlib.Core.Path.{◌≡◌, refl, ap, sym, ◌∙◌}
use mathlib.Core.List.{List, [], ◌∷◌, ◌++◌}
use mathlib.Core.Option.{some}
use mathlib.Core.Logic.{◌⊎◌, inl, inr}
use native.Mathlib.Omega.{arith}
use tulya_checkpoint_store.Prelude.Tests.{le→leb}
use tulya_checkpoint_store.Prelude.Lists.{
  get_elem?, length, take, drop, slice, length-append, length-take, length-drop, take-append_left,
  drop-append_left, drop_all, take_all,
}

pub slice-eq :
    {A : Type 0} (xs : List A) (s e : ℕ)
    → s ≤ e
    → e ≤ length xs
    → slice xs s e ≡ some (take (e - s) (drop s xs))
slice-eq xs s e h k = rw (le→leb s e h, le→leb e (length xs) k)

pub slice_inv :
    {A : Type 0} (xs : List A) (s e : ℕ) {ys : List A}
    → slice xs s e ≡ some ys
    → (s ≤ e) × (e ≤ length xs) × (ys ≡ take (e - s) (drop s xs))
slice_inv xs s e h = ground arith

pub slice-append :
    {A : Type 0} (xs more : List A) (s e : ℕ) {ys : List A}
    → slice xs s e ≡ some ys
    → slice (xs ++ more) s e ≡ some ys
slice-append xs more s e {ys} h =
    let (se, en, eq) = slice_inv xs s e h in
    slice-eq (xs ++ more) s e se (omega (arith, length-append {0} xs more))
    ∙ rw
        (
          drop-append_left s xs more (omega arith),
          take-append_left (e - s) (drop s xs) more (omega (arith, length-drop {0} s xs)),
        )
        (ap some (sym eq))

pub take-take : {A : Type 0} (m n : ℕ) (xs : List A) → m ≤ n → take m (take n xs) ≡ take m xs
take-take zero n xs h = refl
take-take (suc m) zero xs h = absurd (omega arith)
take-take (suc m) (suc n) [] h = refl
take-take (suc m) (suc n) (x ∷ xs) h = ap (λ l. x ∷ l) (take-take m n xs (omega arith))

pub drop-drop : {A : Type 0} (m n : ℕ) (xs : List A) → drop m (drop n xs) ≡ drop (n + m) xs
drop-drop m zero xs = ap (λ k. drop k xs) (omega arith)
drop-drop m (suc n) [] = drop_all m [] (omega arith) ∙ sym (drop_all (suc n + m) [] (omega arith))
drop-drop m (suc n) (x ∷ xs) =
    drop-drop m n xs
    ∙ ap (λ k. drop k (x ∷ xs)) (let e : suc (n + m) ≡ suc n + m = omega arith in e)

pub drop-take : {A : Type 0} (m n : ℕ) (xs : List A) → drop m (take n xs) ≡ take (n - m) (drop m xs)
drop-take zero n xs = ap (λ k. take k xs) (omega arith)
drop-take (suc m) zero xs =
    ap (λ k. take k (drop (suc m) xs)) (let e : zero ≡ zero - suc m = omega arith in e)
drop-take (suc m) (suc n) [] = sym (take_all (suc n - suc m) [] (omega arith))
drop-take (suc m) (suc n) (x ∷ xs) =
    drop-take m n xs
    ∙ ap (λ k. take k (drop m xs)) (let e : n - m ≡ suc n - suc m = omega arith in e)

-- A range inside a range that was read.
pub slice_sub :
    {A : Type 0} (xs : List A) (s e s' e' : ℕ) {ys : List A}
    → slice xs s e ≡ some ys
    → s ≤ s'
    → s' ≤ e'
    → e' ≤ e
    → slice xs s' e' ≡ some (take (e' - s') (drop (s' - s) ys))
slice_sub xs s e s' e' {ys} h lo mid hi =
    let (se, en, eq) = slice_inv xs s e h in
    slice-eq xs s' e' mid (omega arith)
    ∙ ap some (
        sym (
          ap (λ l. take (e' - s') (drop (s' - s) l)) eq
          ∙ ap (take (e' - s')) (drop-take (s' - s) (e - s) (drop s xs))
          ∙ take-take (e' - s') (e - s - (s' - s)) (drop (s' - s) (drop s xs)) (omega arith)
          ∙ ap (take (e' - s')) (drop-drop (s' - s) s xs)
          ∙ ap (λ k. take (e' - s') (drop k xs)) (omega arith)))

pub slice_appended :
    {A : Type 0} (xs ys : List A) → slice (xs ++ ys) (length xs) (length xs + length ys) ≡ some ys
slice_appended xs ys =
    slice-eq (xs ++ ys) (length xs) (length xs + length ys) (omega arith)
      (omega (arith, length-append {0} xs ys))
    ∙ rw (drop-append_left (length xs) xs ys (omega arith), drop_all (length xs) xs (omega arith))
        (ap some (take_all (length xs + length ys - length xs) ys (omega arith)))

pub length-slice :
    {A : Type 0} (xs : List A) (s e : ℕ) {ys : List A} → slice xs s e ≡ some ys → length ys ≡ e - s
length-slice xs s e h =
    let (se, en, eq) = slice_inv xs s e h in
    ap length eq ∙ omega (arith, length-take {0} (e - s) (drop s xs), length-drop {0} s xs)

-- The two sides of a cut inside a range that was read.
pub slice_prefix :
    {A : Type 0} (xs : List A) (s n k : ℕ) {ys : List A}
    → slice xs s (s + n) ≡ some ys
    → k ≤ n
    → slice xs s (s + k) ≡ some (take k ys)
slice_prefix xs s n k {ys} h le =
    let e : s + k - s ≡ k = omega arith in
    let f : s - s ≡ zero = omega arith in
    slice_sub xs s (s + n) s (s + k) h (omega arith) (omega arith) (omega arith)
    ∙ ap (λ a. some (take a (drop (s - s) ys))) e
    ∙ ap (λ b. some (take k (drop b ys))) f

pub slice_suffix :
    {A : Type 0} (xs : List A) (s n k : ℕ) {ys : List A}
    → slice xs s (s + n) ≡ some ys
    → k ≤ n
    → slice xs (s + k) (s + n) ≡ some (drop k ys)
slice_suffix xs s n k {ys} h le =
    let e : s + k - s ≡ k = omega arith in
    slice_sub xs s (s + n) (s + k) (s + n) h (omega arith) (omega arith) (omega arith)
    ∙ ap (λ b. some (take (s + n - (s + k)) (drop b ys))) e
    ∙ ap some (
        take_all (s + n - (s + k)) (drop k ys)
          (omega (arith, length-drop {0} k ys, length-slice xs s (s + n) h)))

pub take_add :
    {A : Type 0} (m k : ℕ) (xs : List A) → take (m + k) xs ≡ take m xs ++ take k (drop m xs)
take_add zero k xs = ap (λ n. take n xs) (omega arith)
take_add (suc m) k [] = take_all (suc m + k) [] (omega arith) ∙ sym (take_all k [] (omega arith))
take_add (suc m) k (x ∷ xs) =
    ap (λ n. take n (x ∷ xs)) (let e : suc m + k ≡ suc (m + k) = omega arith in e)
    ∙ ap (λ l. x ∷ l) (take_add m k xs)

-- A list cut at the end of its first part.
pub take_front :
    {A : Type 0} (front rest : List A) (n : ℕ) → length front ≡ n → take n (front ++ rest) ≡ front
take_front front rest n e =
    take-append_left n front rest (omega (arith, e)) ∙ take_all n front (omega (arith, e))

pub drop_front :
    {A : Type 0} (front rest : List A) (n : ℕ) → length front ≡ n → drop n (front ++ rest) ≡ rest
drop_front front rest n e =
    drop-append_left n front rest (omega (arith, e))
    ∙ ap (λ l. l ++ rest) (drop_all n front (omega (arith, e)))

-- An element of a list with one more at its end.
pub get_elem?-append_inv :
    {A : Type 0} (xs : List A) (last : A) (i : ℕ) {found : A}
    → get_elem? (xs ++ last ∷ []) i ≡ some found
    → (get_elem? xs i ≡ some found) ⊎ ((i ≡ length xs) × (found ≡ last))
get_elem?-append_inv [] last zero h = inr (refl, cc h)
get_elem?-append_inv [] last (suc i) h = absurd (cc h)
get_elem?-append_inv (x ∷ xs) last zero h = inl h
get_elem?-append_inv (x ∷ xs) last (suc i) {found} h = go (get_elem?-append_inv xs last i h)
  where
    go :
        (get_elem? xs i ≡ some found) ⊎ ((i ≡ length xs) × (found ≡ last))
        → (get_elem? xs i ≡ some found) ⊎ ((suc i ≡ suc (length xs)) × (found ≡ last))
    go (inl e) = inl e
    go (inr (e, f)) = inr (ap suc e, f)
