-- ===== src/HotWal/CommitLaws.antt =====
-- A commit is all or nothing, or it poisons the committer.
use tulya_checkpoint_store.Prelude.{
  ℕ, zero, suc, ◌+◌, ◌-◌, ◌≤◌, ◌<◌, ◌≡◌, ◌⊎◌, inl, inr, refl, sym, ap, ◌∙◌, true, false, String,
  List, ◌++◌, arith, length, take, drop, ltb, leb, le→ltb, ne→==, ltb→lt, ltb→le, leb→le, le→leb,
  Bool-cases, take_add, take_all, append-nil, append_assoc, length-drop, is_empty, Result, ok, err,
  u64_max, none,
}
use tulya_checkpoint_store.HotWal.Errors.{
  IoError, StoreError, recovery_required_error, with_message, invalid_input,
}
use tulya_checkpoint_store.HotWal.Commit.{
  HotWalCommitIo, HotWalCommitter, store, out_of_fuel, Round, more, stop, Outcome, ensure_writable,
  mark_recovery_required, poisoning_error, write_failure, after_write, write_loop, after_sync,
  after_flush, after_loop, commit,
}

-- What the documentation of `Write` and `File::sync_data` promises, over the bytes that the log
-- holds and those that are durable: a write appends the prefix that it reports, a failed write
-- nothing, and a barrier that succeeds makes durable what was written.
pub record IoLaws {S : Type 0} (io : HotWalCommitIo S) (bytes durable : S → List ℕ) : Type 0 where
  pub write_takes :
      (buffer : List ℕ) (s : S) (n : ℕ)
      → (io.write buffer s).0 ≡ ok n
      → n ≤ length buffer
      → bytes (io.write buffer s).1 ≡ bytes s ++ take n buffer
  pub write_fails :
      (buffer : List ℕ) (s : S) (e : IoError)
      → (io.write buffer s).0 ≡ err e
      → bytes (io.write buffer s).1 ≡ bytes s
  pub flush_keeps : (s : S) → bytes (io.flush s).1 ≡ bytes s
  pub sync_keeps : (s : S) → bytes (io.sync_data s).1 ≡ bytes s
  pub sync_hardens : (s : S) → (io.sync_data s).0 ≡ ok tt → durable (io.sync_data s).1 ≡ bytes s

-- The guards of `commit`.
module _ {S : Type 0} (io : HotWalCommitIo S) (path : String) where
  refuses :
      (c : HotWalCommitter)
      → c.recovery_required ≡ true
      → ensure_writable c path ≡ err (recovery_required_error path none)
  unfolding ensure_writable
  refuses c e = rw e refl

  writable : (c : HotWalCommitter) → c.recovery_required ≡ false → ensure_writable c path ≡ ok tt
  unfolding ensure_writable
  writable c e = rw e refl

  pub commit_refused :
      (c : HotWalCommitter) (s : S) (entry : List ℕ)
      → c.recovery_required ≡ true
      → commit io path c s entry ≡ (err (store (recovery_required_error path none)), c, s)
  unfolding commit
  commit_refused c s entry poisoned = rw (refuses c poisoned, commit) refl

  pub commit_empty :
      (c : HotWalCommitter) (s : S) (entry : List ℕ)
      → c.recovery_required ≡ false
      → is_empty entry ≡ true
      → commit io path c s entry ≡ (
        err (store (StoreError.io (with_message invalid_input "hot WAL commit record is empty"))),
        c,
        s,
      )
  unfolding commit
  commit_empty c s entry e none_given = rw (writable c e, commit) (rw none_given refl)

  pub commit_full :
      (c : HotWalCommitter) (s : S) (entry : List ℕ)
      → c.recovery_required ≡ false
      → is_empty entry ≡ false
      → commit io path c s entry
        ≡ after_loop io path (write_loop io path entry (length entry) c s 0)
  unfolding commit
  commit_full c s entry e some_given = rw (writable c e, commit) (rw some_given refl)

module _ {S : Type 0} (io : HotWalCommitIo S) (path : String) (bytes durable : S → List ℕ) where
  -- After success the log holds the record behind what it held, durably; after a failure the
  -- committer is as before and the log holds what it held, or the committer is poisoned.
  abbrev pub AllOrPoisoned : HotWalCommitter → List ℕ → List ℕ → Outcome io path → Type 0
  AllOrPoisoned c before entry (ok _, c', s') =
      (c' ≡ c) × (bytes s' ≡ before ++ entry) × (durable s' ≡ before ++ entry)
  AllOrPoisoned c before entry (err (store e), c', s') =
      ((c' ≡ c) × (bytes s' ≡ before)) ⊎ (c'.recovery_required ≡ true)
  AllOrPoisoned c before entry (err out_of_fuel, c', s') = ⊥

  -- The same for the write loop, before any barrier.
  abbrev Written : HotWalCommitter → List ℕ → List ℕ → Outcome io path → Type 0
  Written c before entry (ok _, c', s') = (c' ≡ c) × (bytes s' ≡ before ++ entry)
  Written c before entry (err (store e), c', s') =
      ((c' ≡ c) × (bytes s' ≡ before)) ⊎ (c'.recovery_required ≡ true)
  Written c before entry (err out_of_fuel, c', s') = ⊥

  -- What one round of the loop leaves.
  abbrev Goes : HotWalCommitter → List ℕ → List ℕ → ℕ → Round → S → Type 0
  Goes c before entry written (more w) s' =
      (written < w) × (w ≤ length entry) × (bytes s' ≡ before ++ take w entry)
  Goes c before entry written (stop e c') s' =
      ((c' ≡ c) × (bytes s' ≡ before)) ⊎ (c'.recovery_required ≡ true)

  module _ (laws : IoLaws io bytes durable) (before entry : List ℕ)
      (small : length entry ≤ u64_max) where
    failed_round :
        (c : HotWalCommitter) (s' : S) (written : ℕ) (e : IoError)
        → bytes s' ≡ before ++ take written entry
        → Goes c before entry written (write_failure path written e c) s'
    unfolding write_failure poisoning_error mark_recovery_required
    failed_round c s' zero e same = inl (refl, same ∙ append-nil before)
    failed_round c s' (suc written) e same = rw (ne→== (suc written) 0 (omega arith)) (inr refl)

    round :
        (c : HotWalCommitter) (s : S) (written : ℕ) (r : Result IoError ℕ)
        → written < length entry
        → bytes s ≡ before ++ take written entry
        → (io.write (drop written entry) s).0 ≡ r
        → Goes c before entry written
            (after_write path (length entry - written) written r c)
            (io.write (drop written entry) s).1
    unfolding after_write
    round c s written (err e) inside held is_r =
        failed_round c _ written e (laws.write_fails (drop written entry) s e is_r ∙ held)
    round c s written (ok zero) inside held is_r =
        failed_round c _ written _ (
          laws.write_takes (drop written entry) s 0 is_r (omega arith)
          ∙ append-nil (bytes s)
          ∙ held)
    round c s written (ok (suc k)) inside held is_r =
        elim (Bool-cases (leb (suc k) (length entry - written))) [
          | inl e ↦
              rw (e, le→leb (written + suc k) u64_max (omega (arith, leb→le _ _ e)))
                (
                  omega arith,
                  omega (arith, leb→le _ _ e),
                  laws.write_takes (drop written entry) s (suc k) is_r
                        (omega (arith, leb→le _ _ e, length-drop {0} written entry))
                      ∙ ap (λ b. b ++ take (suc k) (drop written entry)) held
                      ∙ append_assoc before (take written entry) (take (suc k) (drop written entry))
                      ∙ ap (λ b. before ++ b) (sym (take_add written (suc k) entry)),
                )
          | inr e ↦ rw e (unfold poisoning_error mark_recovery_required in inr refl)
        ]

    -- The loop goes on with the rest of the record where a round decides so.
    resume :
        (fuel : ℕ) (c : HotWalCommitter) (s' : S) (written : ℕ) (next : Round)
        → ((w : ℕ)
            → written < w
            → w ≤ length entry
            → bytes s' ≡ before ++ take w entry
            → Written c before entry (write_loop io path entry fuel c s' w))
        → Goes c before entry written next s'
        → Written c before entry (elim next [
          | more w ↦ write_loop io path entry fuel c s' w
          | stop e c' ↦ (err (store e), c', s')
        ])
    resume fuel c s' written (more w) rest (further, within, held) = rest w further within held
    resume fuel c s' written (stop e c') rest g = g

    loop_writes :
        (fuel : ℕ) (c : HotWalCommitter) (s : S) (written : ℕ)
        → written ≤ length entry
        → length entry - written ≤ fuel
        → bytes s ≡ before ++ take written entry
        → Written c before entry (write_loop io path entry fuel c s written)
    unfolding write_loop
    loop_writes zero c s written within enough held =
        rw (le→ltb written (length entry) (omega arith))
          (refl, held ∙ ap (λ b. before ++ b) (take_all written entry (omega arith)))
    loop_writes (suc fuel) c s written within enough held =
        elim (Bool-cases (ltb written (length entry))) [
          | inl e ↦ rw e (
              resume fuel c _ written _
                (λ w further inside held'. loop_writes fuel c _ w inside (omega arith) held')
                (round c s written (io.write (drop written entry) s).0 (ltb→lt _ _ e) held refl))
          | inr e ↦
              rw e (refl, held ∙ ap (λ b. before ++ b) (take_all written entry (ltb→le _ _ e)))
        ]

    sync_commits :
        (c : HotWalCommitter) (s : S) (r : Result IoError (Unit {0}))
        → (io.sync_data s).0 ≡ r
        → bytes s ≡ before ++ entry
        → AllOrPoisoned c before entry (after_sync io path r c (io.sync_data s).1)
    unfolding after_sync mark_recovery_required
    sync_commits c s (err e) is_r held = inr refl
    sync_commits c s (ok u) is_r held =
        (refl, laws.sync_keeps s ∙ held, laws.sync_hardens s is_r ∙ held)

    flush_commits :
        (c : HotWalCommitter) (s : S) (r : Result IoError (Unit {0}))
        → bytes s ≡ before ++ entry
        → AllOrPoisoned c before entry (after_flush io path r c s)
    unfolding after_flush mark_recovery_required
    flush_commits c s (err e) held = inr refl
    flush_commits c s (ok u) held = sync_commits c s _ refl held

    loop_commits :
        (c : HotWalCommitter) (o : Outcome io path)
        → Written c before entry o
        → AllOrPoisoned c before entry (after_loop io path o)
    unfolding after_loop
    loop_commits c (ok u, c', s') (same, held) =
        rw same (flush_commits c _ _ (laws.flush_keeps s' ∙ held))
    loop_commits c (err (store e), c', s') kept = kept
    loop_commits c (err out_of_fuel, c', s') kept = elim kept [ ]

  -- With a file that behaves as documented, and a record whose length fits 64 bits, `commit` always
  -- returns. After success the log holds the record behind what it held before, all of it is
  -- durable, and the committer is unchanged. After an error either the log holds what it held
  -- before and the committer is unchanged, or the committer requires recovery.
  pub commit-AllOrPoisoned :
      (laws : IoLaws io bytes durable) (c : HotWalCommitter) (s : S) (entry : List ℕ)
      → length entry ≤ u64_max
      → AllOrPoisoned c (bytes s) entry (commit io path c s entry)
  commit-AllOrPoisoned laws c s entry small = elim (Bool-cases c.recovery_required) [
    | inl e ↦ rw (commit_refused io path c s entry e) (inl (refl, refl))
    | inr e ↦ (elim (Bool-cases (is_empty entry)) [
      | inl empty ↦ rw (commit_empty io path c s entry e empty) (inl (refl, refl))
      | inr full ↦ rw (commit_full io path c s entry e full) (
          loop_commits laws (bytes s) entry small c (write_loop io path entry (length entry) c s 0)
            (loop_writes laws (bytes s) entry small (length entry) c s 0 (omega arith) (omega arith)
              (sym (append-nil (bytes s)))))
    ])
  ]
