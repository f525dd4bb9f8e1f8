-- ===== src/HotWal/Session.antt =====
-- The commits of one writer handle, one after the other: `HotWalCommitter::commit` of
-- hot_wal_commit.rs on a sequence of records over one file.
use mathlib.Core.Path.{subst}
use tulya_checkpoint_store.Prelude.{
  ℕ, ◌≤◌, ◌≡◌, ◌⊎◌, inl, inr, refl, sym, ap, ◌∙◌, true, String, List, [], ◌∷◌, ◌++◌, length,
  append-nil, append_assoc, Result, ok, err, none, u64_max,
}
use tulya_checkpoint_store.HotWal.Errors.{recovery_required_error}
use tulya_checkpoint_store.HotWal.Commit.{
  HotWalCommitIo, HotWalCommitter, CommitFault, store, out_of_fuel, Outcome, commit,
}
use tulya_checkpoint_store.HotWal.CommitLaws.{
  IoLaws, AllOrPoisoned, commit_refused, commit-AllOrPoisoned,
}
use tulya_checkpoint_store.HotWal.Durability.{Extends, DurableLaws, Extends-trans, commit-Extends}

-- The records that were committed, one behind the other.
abbrev pub acknowledged : List (List ℕ) → List (Result CommitFault (Unit {0})) → List ℕ
acknowledged (entry ∷ entries) (ok _ ∷ results) = entry ++ acknowledged entries results
acknowledged (entry ∷ entries) (err _ ∷ results) = acknowledged entries results
acknowledged [] results = []
acknowledged (entry ∷ entries) [] = []

-- The lengths of the records fit 64 bits.
abbrev pub AllFit : List (List ℕ) → Type 0
AllFit [] = Unit
AllFit (entry ∷ entries) = (length entry ≤ u64_max) × AllFit entries

module _ {S : Type 0} (io : HotWalCommitIo S) (path : String) where
  abbrev pub Answers : Type 0
  Answers = List (Result CommitFault (Unit {0})) × HotWalCommitter × S

  abbrev pub answer : Result CommitFault (Unit {0}) → Answers → Answers
  answer r (results, c, s) = (r ∷ results, c, s)

  -- A commit of each record in turn, whatever the ones before it returned.
  unfoldable pub session : HotWalCommitter → S → List (List ℕ) → Answers
  session c s [] = ([], c, s)
  session c s (entry ∷ entries) =
      let (r, c', s') = commit io path c s entry in answer r (session c' s' entries)

  -- The recovery error for each record.
  abbrev pub refusals : List (List ℕ) → List (Result CommitFault (Unit {0}))
  refusals [] = []
  refusals (entry ∷ entries) = err (store (recovery_required_error path none)) ∷ refusals entries

  session_refused :
      (c : HotWalCommitter) (s : S) (entries : List (List ℕ))
      → c.recovery_required ≡ true
      → session c s entries ≡ (refusals entries, c, s)
  unfolding session
  session_refused c s [] poisoned = refl
  session_refused c s (entry ∷ entries) poisoned = rw (commit_refused io path c s entry poisoned) (
      ap (answer (err (store (recovery_required_error path none))))
        (session_refused c s entries poisoned))

module _ {S : Type 0} (io : HotWalCommitIo S) (path : String) (bytes durable : S → List ℕ) where
  -- All of `base` is durable; the log holds `base` and no more, or the committer requires recovery.
  abbrev Holds : List ℕ → HotWalCommitter → S → Type 0
  Holds base c s = Extends base (durable s) × ((c.recovery_required ≡ true) ⊎ (bytes s ≡ base))

  abbrev StepHolds : List ℕ → List ℕ → Outcome io path → Type 0
  StepHolds base entry (ok _, c, s) = Holds (base ++ entry) c s
  StepHolds base entry (err _, c, s) = Holds base c s

  abbrev SessionHolds : List ℕ → List (List ℕ) → Answers io path → Type 0
  SessionHolds base entries (results, c, s) = Holds (base ++ acknowledged entries results) c s

  -- What a session leaves behind the bytes `before`, and what a later one on it does.
  abbrev pub Acknowledges : List ℕ → List (List ℕ) → List (List ℕ) → Answers io path → Type 0
  Acknowledges before entries later (results, c, s) =
      let base = before ++ acknowledged entries results in
      Extends base (durable s)
      × (((c.recovery_required ≡ true)
            × (session io path c s later ≡ (refusals io path later, c, s)))
          ⊎ (bytes s ≡ base))

  module _ (laws : IoLaws io bytes durable) (hardens : DurableLaws io durable) where
    outcome-StepHolds :
        (base entry : List ℕ) (c : HotWalCommitter) (front : List ℕ) (o : Outcome io path)
        → Extends base front
        → Extends front (durable o.2)
        → AllOrPoisoned io path bytes durable c base entry o
        → StepHolds base entry o
    outcome-StepHolds base entry c front (ok u, c', s') held kept (same, written, hard) =
        (([], hard ∙ sym (append-nil (base ++ entry))), inr written)
    outcome-StepHolds base entry c front (err (store e), c', s') held kept (inl (same, written)) =
        (Extends-trans base front (durable s') held kept, inr written)
    outcome-StepHolds base entry c front (err (store e), c', s') held kept (inr poisoned) =
        (Extends-trans base front (durable s') held kept, inl poisoned)
    outcome-StepHolds base entry c front (err out_of_fuel, c', s') held kept never = elim never [ ]

    commit-StepHolds :
        (base entry : List ℕ) (c : HotWalCommitter) (s : S)
        → length entry ≤ u64_max
        → Holds base c s
        → StepHolds base entry (commit io path c s entry)
    commit-StepHolds base entry c s small (held, inl poisoned) =
        rw (commit_refused io path c s entry poisoned) (held, inl poisoned)
    commit-StepHolds base entry c s small (held, inr written) =
        outcome-StepHolds base entry c (durable s) (commit io path c s entry) held
          (commit-Extends io path durable hardens c s entry)
          (subst (λ b. AllOrPoisoned io path bytes durable c b entry (commit io path c s entry))
            written (commit-AllOrPoisoned io path bytes durable laws c s entry small))

    answer-SessionHolds :
        (base entry : List ℕ) (entries : List (List ℕ)) (o : Outcome io path)
        → StepHolds base entry o
        → ((base' : List ℕ)
            → Holds base' o.1 o.2
            → SessionHolds base' entries (session io path o.1 o.2 entries))
        → SessionHolds base (entry ∷ entries) (answer io path o.0 (session io path o.1 o.2 entries))
    answer-SessionHolds base entry entries (ok u, c, s) held rest =
        subst (λ b. Holds b (session io path c s entries).1 (session io path c s entries).2)
          (append_assoc base entry (acknowledged entries (session io path c s entries).0))
          (rest (base ++ entry) held)
    answer-SessionHolds base entry entries (err e, c, s) held rest = rest base held

    session-SessionHolds :
        (base : List ℕ) (entries : List (List ℕ)) (c : HotWalCommitter) (s : S)
        → AllFit entries
        → Holds base c s
        → SessionHolds base entries (session io path c s entries)
    unfolding session
    session-SessionHolds base [] c s fit held = rw (append-nil base) held
    session-SessionHolds base (entry ∷ entries) c s (small, fit) held =
        answer-SessionHolds base entry entries (commit io path c s entry)
          (commit-StepHolds base entry c s small held)
          (λ base' held'.
            session-SessionHolds base' entries (commit io path c s entry).1
              (commit io path c s entry).2 fit held')

    settled :
        (before : List ℕ) (entries later : List (List ℕ)) (a : Answers io path)
        → SessionHolds before entries a
        → Acknowledges before entries later a
    settled before entries later (results, c, s) (held, inl poisoned) =
        (held, inl (poisoned, session_refused io path c s later poisoned))
    settled before entries later (results, c, s) (held, inr written) = (held, inr written)

    -- On a file that behaves as documented, keeps durable what is durable, and whose bytes are all
    -- durable at the start, commits of any records of 64-bit lengths are tried in turn by any
    -- committer. Then what is durable begins with the old bytes and the records whose commits
    -- returned success, in order. Either the log holds just these, or the committer requires
    -- recovery, and any later sequence of records is refused with the recovery error throughout,
    -- with the committer and the file left as they are.
    pub session-Acknowledges :
        (c : HotWalCommitter) (s : S) (entries later : List (List ℕ))
        → AllFit entries
        → durable s ≡ bytes s
        → Acknowledges (bytes s) entries later (session io path c s entries)
    session-Acknowledges c s entries later fit hard =
        settled (bytes s) entries later (session io path c s entries) (
          session-SessionHolds (bytes s) entries c s fit
            (([], hard ∙ sym (append-nil (bytes s))), inr refl))
