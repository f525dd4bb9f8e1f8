-- ===== src/HotWal/Success.antt =====
-- A commit on a file that accepts what it is given, and a sequence of them.
use mathlib.Core.Path.{subst}
use tulya_checkpoint_store.Prelude.{
  ℕ, zero, suc, ◌+◌, ◌-◌, ◌≤◌, ◌<◌, ◌≡◌, inl, inr, refl, sym, ap, ◌∙◌, arith, false, String, List,
  [], ◌∷◌, ◌++◌, length, drop, length-drop, append-nil, append_assoc, ltb, ltb→lt, le→ltb, le→leb,
  Bool-cases, is_empty, Result, ok, u64_max,
}
use tulya_checkpoint_store.HotWal.Commit.{
  HotWalCommitIo, HotWalCommitter, CommitFault, more, after_write, write_loop, after_sync,
  after_flush, after_loop, commit,
}
use tulya_checkpoint_store.HotWal.CommitLaws.{
  IoLaws, AllOrPoisoned, commit_full, commit-AllOrPoisoned,
}
use tulya_checkpoint_store.HotWal.Session.{answer, session}

-- The file takes at least one of the bytes that it is given, and never more, and its barriers
-- succeed.
pub record Accepts {S : Type 0} (io : HotWalCommitIo S) : Type 0 where
  pub writes_some :
      (buffer : List ℕ) (s : S)
      → 0 < length buffer
      → (n : ℕ) × ((io.write buffer s).0 ≡ ok n) × (0 < n) × (n ≤ length buffer)
  pub flushes : (s : S) → (io.flush s).0 ≡ ok tt
  pub syncs : (s : S) → (io.sync_data s).0 ≡ ok tt

-- The records are not empty, and their lengths fit 64 bits.
abbrev pub AllRecords : List (List ℕ) → Type 0
AllRecords [] = Unit
AllRecords (entry ∷ entries) =
    (is_empty entry ≡ false) × (length entry ≤ u64_max) × AllRecords entries

-- The records one behind the other.
abbrev pub joined : List (List ℕ) → List ℕ
joined [] = []
joined (entry ∷ entries) = entry ++ joined entries

-- Success for each record.
abbrev pub successes : List (List ℕ) → List (Result CommitFault (Unit {0}))
successes [] = []
successes (entry ∷ entries) = ok tt ∷ successes entries

after_write_more :
    (path : String) (remaining written n : ℕ) (c : HotWalCommitter)
    → 0 < n
    → n ≤ remaining
    → written + n ≤ u64_max
    → after_write path remaining written (ok n) c ≡ more (written + n)
unfolding after_write
after_write_more path remaining written zero c some_ within small = absurd (omega arith)
after_write_more path remaining written (suc k) c some_ within small =
    rw (le→leb (suc k) remaining within, le→leb (written + suc k) u64_max small) refl

module _ {S : Type 0} (io : HotWalCommitIo S) (path : String) (accepts : Accepts io) where
  write_loop_succeeds :
      (entry : List ℕ) (fuel : ℕ) (c : HotWalCommitter) (s : S) (written : ℕ)
      → length entry ≤ u64_max
      → written ≤ length entry
      → length entry - written ≤ fuel
      → (s' : S) × (write_loop io path entry fuel c s written ≡ (ok tt, c, s'))
  unfolding write_loop
  write_loop_succeeds entry zero c s written small within enough =
      (s, rw (le→ltb written (length entry) (omega arith)) refl)
  write_loop_succeeds entry (suc fuel) c s written small within enough =
      elim (Bool-cases (ltb written (length entry))) [
        | inr e ↦ (s, rw e refl)
        | inl e ↦
            let size = length-drop {0} written entry in
            let inside = ltb→lt written (length entry) e in
            let (n, is, some_, few) =
              accepts.writes_some (drop written entry) s (omega (arith, size, inside)) in
            let next =
              after_write_more path (length entry - written) written n c some_
                (omega (arith, size, few)) (omega (arith, size, few, inside)) in
            let (s', rest) =
              write_loop_succeeds entry fuel c (io.write (drop written entry) s).1 (written + n)
                small (omega (arith, size, few, inside)) (omega (arith, size, some_, enough)) in
            (s', rw (e, is, next) rest)
      ]

  commit_succeeds :
      (c : HotWalCommitter) (s : S) (entry : List ℕ)
      → c.recovery_required ≡ false
      → is_empty entry ≡ false
      → length entry ≤ u64_max
      → (s' : S) × (commit io path c s entry ≡ (ok tt, c, s'))
  unfolding after_loop after_flush after_sync
  commit_succeeds c s entry ready full small =
      let (s', loop) =
        write_loop_succeeds entry (length entry) c s 0 small (omega arith) (omega arith) in
      let s'' = (io.flush s').1 in
      (
        (io.sync_data s'').1,
        commit_full io path c s entry ready full
            ∙ ap (after_loop io path) loop
            ∙ ap (λ r. after_flush io path r c s'') (accepts.flushes s')
            ∙ ap (λ r. after_sync io path r c (io.sync_data s'').1) (accepts.syncs s''),
      )

module _ {S : Type 0} (io : HotWalCommitIo S) (path : String) (bytes durable : S → List ℕ)
    (laws : IoLaws io bytes durable) (accepts : Accepts io) where
  commit_appends :
      (c : HotWalCommitter) (s : S) (entry : List ℕ)
      → c.recovery_required ≡ false
      → is_empty entry ≡ false
      → length entry ≤ u64_max
      → (s' : S) × (commit io path c s entry ≡ (ok tt, c, s'))
        × (bytes s' ≡ bytes s ++ entry)
        × (durable s' ≡ bytes s ++ entry)
  commit_appends c s entry ready full small =
      let (s', done) = commit_succeeds io path accepts c s entry ready full small in
      let (same, held, hard) =
        subst (AllOrPoisoned io path bytes durable c (bytes s) entry) done
          (commit-AllOrPoisoned io path bytes durable laws c s entry small) in
      (s', done, held, hard)

  -- On a file that behaves as documented, whose bytes are all durable, and that always takes some
  -- byte of a write and completes its barriers, the commits of any sequence of records, none of
  -- them empty and each of a 64-bit length, by a committer that does not require recovery all
  -- succeed. The committer stays as it is, and the log holds the old bytes and the records in
  -- order, all of it durable.
  pub session_appends :
      (c : HotWalCommitter) (s : S) (entries : List (List ℕ))
      → c.recovery_required ≡ false
      → AllRecords entries
      → durable s ≡ bytes s
      → (s' : S) × (session io path c s entries ≡ (successes entries, c, s'))
        × (bytes s' ≡ bytes s ++ joined entries)
        × (durable s' ≡ bytes s ++ joined entries)
  unfolding session
  session_appends c s [] ready records hard =
      (s, refl, sym (append-nil (bytes s)), hard ∙ sym (append-nil (bytes s)))
  session_appends c s (entry ∷ entries) ready (full, small, records) hard =
      let (s1, done, held1, hard1) = commit_appends c s entry ready full small in
      let (s2, rest, held2, hard2) =
        session_appends c s1 entries ready records (hard1 ∙ sym held1) in
      let joins : bytes s1 ++ joined entries ≡ bytes s ++ (entry ++ joined entries) =
        ap (λ l. l ++ joined entries) held1 ∙ append_assoc (bytes s) entry (joined entries) in
      (s2, rw done (ap (answer io path (ok tt)) rest), held2 ∙ joins, hard2 ∙ joins)
