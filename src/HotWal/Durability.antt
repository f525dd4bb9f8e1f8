-- ===== src/HotWal/Durability.antt =====
-- No call of a commit loses what is durable.
use tulya_checkpoint_store.Prelude.{
  ℕ, zero, suc, ◌-◌, drop, ltb, ◌≡◌, inl, inr, sym, ap, ◌∙◌, String, List, [], ◌++◌, length,
  append-nil, append_assoc, Bool-cases, is_empty, Result, ok, err,
}
use tulya_checkpoint_store.HotWal.Errors.{IoError}
use tulya_checkpoint_store.HotWal.Commit.{
  HotWalCommitIo, HotWalCommitter, store, Round, more, stop, Outcome, after_write, write_loop,
  after_sync, after_flush, after_loop, commit,
}
use tulya_checkpoint_store.HotWal.CommitLaws.{commit_refused, commit_empty, commit_full}

-- The second list is the first with something behind it.
abbrev pub Extends : List ℕ → List ℕ → Type 0
Extends front whole = (rest : List ℕ) × (whole ≡ front ++ rest)

pub Extends-refl : (l : List ℕ) → Extends l l
Extends-refl l = ([], sym (append-nil l))

pub Extends-trans : (a b c : List ℕ) → Extends a b → Extends b c → Extends a c
Extends-trans a b c (r, e) (r', e') = (r ++ r', e' ∙ ap (λ l. l ++ r') e ∙ append_assoc a r r')

-- Bytes that are durable stay so: what a call adds to them is behind them.
pub record DurableLaws {S : Type 0} (io : HotWalCommitIo S) (durable : S → List ℕ) : Type 0 where
  pub write_extends :
      (buffer : List ℕ) (s : S) → Extends (durable s) (durable (io.write buffer s).1)
  pub flush_extends : (s : S) → Extends (durable s) (durable (io.flush s).1)
  pub sync_extends : (s : S) → Extends (durable s) (durable (io.sync_data s).1)

module _ {S : Type 0} (io : HotWalCommitIo S) (path : String) (durable : S → List ℕ)
    (hardens : DurableLaws io durable) where
  resume :
      (entry : List ℕ) (fuel : ℕ) (c : HotWalCommitter) (s after : S)
      → Extends (durable s) (durable after)
      → ((w : ℕ) → Extends (durable after) (durable (write_loop io path entry fuel c after w).2))
      → (next : Round)
      → let o : Outcome io path = elim next [
        | more w ↦ write_loop io path entry fuel c after w
        | stop e c' ↦ (err (store e), c', after)
      ] in
        Extends (durable s) (durable o.2)
  resume entry fuel c s after kept rest (more w) =
      Extends-trans (durable s) (durable after) _ kept (rest w)
  resume entry fuel c s after kept rest (stop e c') = kept

  write_loop-Extends :
      (entry : List ℕ) (fuel : ℕ) (c : HotWalCommitter) (s : S) (written : ℕ)
      → let (r, c', s') = write_loop io path entry fuel c s written in
        Extends (durable s) (durable s')
  unfolding write_loop
  write_loop-Extends entry zero c s written = elim (Bool-cases (ltb written (length entry))) [
    | inl e ↦ rw e (Extends-refl (durable s))
    | inr e ↦ rw e (Extends-refl (durable s))
  ]
  write_loop-Extends entry (suc fuel) c s written = elim (Bool-cases (ltb written (length entry))) [
    | inl e ↦ rw e (
        resume entry fuel c s (io.write (drop written entry) s).1
          (hardens.write_extends (drop written entry) s)
          (λ w. write_loop-Extends entry fuel c (io.write (drop written entry) s).1 w)
          (after_write path (length entry - written) written (io.write (drop written entry) s).0 c))
    | inr e ↦ rw e (Extends-refl (durable s))
  ]

  after_sync-Extends :
      (c : HotWalCommitter) (s : S) (r : Result IoError (Unit {0}))
      → let (o, c', s') = after_sync io path r c s in Extends (durable s) (durable s')
  unfolding after_sync
  after_sync-Extends c s (err e) = Extends-refl (durable s)
  after_sync-Extends c s (ok u) = Extends-refl (durable s)

  after_flush-Extends :
      (c : HotWalCommitter) (s : S) (r : Result IoError (Unit {0}))
      → let (o, c', s') = after_flush io path r c s in Extends (durable s) (durable s')
  unfolding after_flush
  after_flush-Extends c s (err e) = Extends-refl (durable s)
  after_flush-Extends c s (ok u) =
      Extends-trans (durable s) (durable (io.sync_data s).1) _ (hardens.sync_extends s)
        (after_sync-Extends c (io.sync_data s).1 (io.sync_data s).0)

  after_loop-Extends :
      (front : List ℕ) (o : Outcome io path)
      → Extends front (durable o.2)
      → let (r, c', s') = after_loop io path o in Extends front (durable s')
  unfolding after_loop
  after_loop-Extends front (err e, c, s) kept = kept
  after_loop-Extends front (ok u, c, s) kept = Extends-trans front (durable s) _ kept (
      Extends-trans (durable s) (durable (io.flush s).1) _ (hardens.flush_extends s)
        (after_flush-Extends c (io.flush s).1 (io.flush s).0))

  -- Whatever a commit returns, the durable bytes stay durable.
  pub commit-Extends :
      (c : HotWalCommitter) (s : S) (entry : List ℕ)
      → Extends (durable s) (durable (commit io path c s entry).2)
  commit-Extends c s entry = elim (Bool-cases c.recovery_required) [
    | inl e ↦ rw (commit_refused io path c s entry e) (Extends-refl (durable s))
    | inr e ↦ (elim (Bool-cases (is_empty entry)) [
      | inl empty ↦ rw (commit_empty io path c s entry e empty) (Extends-refl (durable s))
      | inr full ↦ rw (commit_full io path c s entry e full) (
          after_loop-Extends (durable s) (write_loop io path entry (length entry) c s 0)
            (write_loop-Extends entry (length entry) c s 0))
    ])
  ]
