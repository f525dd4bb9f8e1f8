-- ===== src/Tests/WalWitnesses.antt =====
-- The theorems on the commit at a log in memory: it takes two bytes a call, and a call can be made
-- to fail.
use tulya_checkpoint_store.Prelude.{
  replicate, ◌⊎◌, ◌↔◌, ◌≢◌, ℕ, zero, suc, ◌≤◌, ◌<◌, ◌≡◌, refl, ap, sym, ◌∙◌, append-nil,
  append_assoc, true, List, [], ◌∷◌, ◌++◌, arith, length, take, min, none, Result, ok, err,
}
use tulya_checkpoint_store.Format.Bytes.{to_le_bytes, from_le_bytes}
use tulya_checkpoint_store.HotWal.Authority.{
  v2, v2_commit, v2_commit_wal, all_zero, wal_v2_commit_magic, classify_magic, probe_hot_wal_prefix,
  recovery_dispatch,
}
use tulya_checkpoint_store.HotWal.AuthorityLaws.{
  format_of, magic_of, recovery_dispatch-probe_hot_wal_prefix,
}
use tulya_checkpoint_store.HotWal.Frame.{
  complete, commit_magic, commit_header_size, read_u32, footer, check_footer, probe_footer,
  probe_hot_frame,
}
use tulya_checkpoint_store.HotWal.FrameLaws.{IsFrame, probe_hot_frame-complete}
use tulya_checkpoint_store.HotWal.Errors.{
  IoError, with_message, from_raw_os_error, other, wal_flush, durability_indeterminate_error,
  recovery_required_error, recovery_required_after_commit_error, system,
}
use tulya_checkpoint_store.HotWal.Classify.{
  indeterminate, recovery, failure_kind, wrappers_classify,
}
use tulya_checkpoint_store.HotWal.Contexts.{
  durability_context, recovery_context, failure_kind-durability_context,
  failure_kind-recovery_context,
}
use tulya_checkpoint_store.HotWal.Commit.{HotWalCommitIo, fresh, commit}
use tulya_checkpoint_store.HotWal.Durability.{DurableLaws}
use tulya_checkpoint_store.HotWal.Session.{Acknowledges, session, session-Acknowledges}
use tulya_checkpoint_store.HotWal.Success.{Accepts, successes, session_appends}
use tulya_checkpoint_store.HotWal.CommitLaws.{IoLaws, AllOrPoisoned, commit-AllOrPoisoned}

-- The bytes that are durable, those behind them that are not, and how many more writes succeed.
record Log : Type 0 where
  durable : List ℕ
  pending : List ℕ
  good_writes : ℕ

abbrev written : Log → List ℕ
written log = log.durable ++ log.pending

put : List ℕ → List ℕ → List ℕ → ℕ → Result IoError ℕ × Log
put buffer durable pending zero = (
  err (with_message other "device"),
  record { durable = durable; pending = pending; good_writes = 0 },
)
put buffer durable pending (suc n) = (
  ok (min 2 (length buffer)),
  record {
    durable = durable;
    pending = pending ++ take (min 2 (length buffer)) buffer;
    good_writes = n;
  },
)

-- A log whose next writes succeed as often as a number of it says.
abbrev memory : (Log → ℕ) → HotWalCommitIo Log
memory good = record {
  write = λ buffer log. put buffer log.durable log.pending (good log);
  flush = λ log. (ok tt, log);
  sync_data =
      λ log. (ok tt, record { durable = written log; pending = []; good_writes = log.good_writes });
}

abbrev in_memory : HotWalCommitIo Log
in_memory = memory (λ log. log.good_writes)

abbrev reliable : HotWalCommitIo Log
reliable = memory (λ log. 1)

-- The number that a write reports.
reported : Result IoError ℕ → ℕ
reported (ok n) = n
reported (err e) = 0

put_takes :
    (buffer durable pending : List ℕ) (good n : ℕ)
    → (put buffer durable pending good).0 ≡ ok n
    → written (put buffer durable pending good).1 ≡ (durable ++ pending) ++ take n buffer
unfolding put reported
put_takes buffer durable pending zero n e = absurd (cc e)
put_takes buffer durable pending (suc good) n e =
    let same : min 2 (length buffer) ≡ n = ap reported e in
    ap (λ k. durable ++ (pending ++ take k buffer)) same
    ∙ sym (append_assoc durable pending (take n buffer))

put_fails :
    (buffer durable pending : List ℕ) (good : ℕ) (e : IoError)
    → (put buffer durable pending good).0 ≡ err e
    → written (put buffer durable pending good).1 ≡ durable ++ pending
unfolding put
put_fails buffer durable pending zero e is_e = refl
put_fails buffer durable pending (suc good) e is_e = absurd (cc is_e)

put_keeps :
    (buffer durable pending : List ℕ) (good : ℕ)
    → (put buffer durable pending good).1.durable ≡ durable
unfolding put
put_keeps buffer durable pending zero = refl
put_keeps buffer durable pending (suc good) = refl

memory-IoLaws : (good : Log → ℕ) → IoLaws (memory good) (λ log. written log) (λ log. log.durable)
memory-IoLaws good = record {
  write_takes = λ buffer s n e within. put_takes buffer s.durable s.pending (good s) n e;
  write_fails = λ buffer s e is_e. put_fails buffer s.durable s.pending (good s) e is_e;
  flush_keeps = λ s. refl;
  sync_keeps = λ s. append-nil (written s);
  sync_hardens = λ s e. refl;
}

memory-DurableLaws : (good : Log → ℕ) → DurableLaws (memory good) (λ log. log.durable)
memory-DurableLaws good = record {
  write_extends =
      λ buffer s. ([], put_keeps buffer s.durable s.pending (good s) ∙ sym (append-nil s.durable));
  flush_extends = λ s. ([], sym (append-nil s.durable));
  sync_extends = λ s. (s.pending, refl);
}

abbrev log_of : ℕ → Log
log_of n = record { durable = 7 ∷ []; pending = []; good_writes = n }

commit-AllOrPoisoned_example :
    AllOrPoisoned in_memory "wal"
      (λ log. written log)
      (λ log. log.durable)
      fresh
      (7 ∷ [])
      (1 ∷ 2 ∷ 3 ∷ [])
      (commit in_memory "wal" fresh (log_of 1) (1 ∷ 2 ∷ 3 ∷ []))
commit-AllOrPoisoned_example =
    commit-AllOrPoisoned in_memory "wal" (λ log. written log) (λ log. log.durable)
      (memory-IoLaws (λ log. log.good_writes)) fresh (log_of 1) (1 ∷ 2 ∷ 3 ∷ []) (omega arith)

-- The first record is committed, the second fails behind its first two bytes, the third is refused.
session-Acknowledges_example :
    Acknowledges in_memory "wal"
      (λ log. written log)
      (λ log. log.durable)
      (7 ∷ [])
      ((1 ∷ 2 ∷ 3 ∷ []) ∷ (4 ∷ 5 ∷ 6 ∷ []) ∷ [])
      ((8 ∷ []) ∷ [])
      (session in_memory "wal" fresh (log_of 3) ((1 ∷ 2 ∷ 3 ∷ []) ∷ (4 ∷ 5 ∷ 6 ∷ []) ∷ []))
session-Acknowledges_example =
    session-Acknowledges in_memory "wal" (λ log. written log) (λ log. log.durable)
      (memory-IoLaws (λ log. log.good_writes)) (memory-DurableLaws (λ log. log.good_writes)) fresh
      (log_of 3) ((1 ∷ 2 ∷ 3 ∷ []) ∷ (4 ∷ 5 ∷ 6 ∷ []) ∷ []) ((8 ∷ []) ∷ [])
      (omega arith, (omega arith, tt)) refl

put_some :
    (buffer durable pending : List ℕ)
    → 0 < length buffer
    → (n : ℕ) × ((put buffer durable pending 1).0 ≡ ok n) × (0 < n) × (n ≤ length buffer)
unfolding put
put_some buffer durable pending long =
    (min 2 (length buffer), refl, omega (arith, long), omega (arith, long))

reliable-Accepts : Accepts reliable
reliable-Accepts = record {
  writes_some = λ buffer s long. put_some buffer s.durable s.pending long;
  flushes = λ s. refl;
  syncs = λ s. refl;
}

session_appends_example :
    (s' : Log) × (session reliable "wal" fresh (log_of 0) ((1 ∷ 2 ∷ 3 ∷ []) ∷ (4 ∷ []) ∷ [])
      ≡ (successes ((1 ∷ 2 ∷ 3 ∷ []) ∷ (4 ∷ []) ∷ []), fresh, s'))
    × (written s' ≡ 7 ∷ 1 ∷ 2 ∷ 3 ∷ 4 ∷ [])
    × (s'.durable ≡ 7 ∷ 1 ∷ 2 ∷ 3 ∷ 4 ∷ [])
session_appends_example =
    session_appends reliable "wal" (λ log. written log) (λ log. log.durable)
      (memory-IoLaws (λ log. 1)) reliable-Accepts fresh (log_of 0)
      ((1 ∷ 2 ∷ 3 ∷ []) ∷ (4 ∷ []) ∷ []) refl (refl, omega arith, (refl, omega arith, tt)) refl

wrappers_classify_example :
    (failure_kind (durability_indeterminate_error wal_flush "wal" (from_raw_os_error (system 0) 28))
      ≡ indeterminate)
    × (failure_kind (recovery_required_error "wal" none) ≡ recovery)
    × (failure_kind (recovery_required_after_commit_error "wal" none) ≡ recovery)
wrappers_classify_example = wrappers_classify wal_flush "wal" (from_raw_os_error (system 0) 28) none

recovery_dispatch-probe_example :
    (v2 ≡ format_of v2_commit_wal)
    × ((all_zero wal_v2_commit_magic ≡ true) ⊎ (wal_v2_commit_magic ≡ magic_of v2_commit_wal))
recovery_dispatch-probe_example =
    recovery_dispatch-probe_hot_wal_prefix v2 (b'T' ∷ b'2' ∷ b'C' ∷ b'2' ∷ 9 ∷ []) v2_commit
      v2_commit_wal (unfold probe_hot_wal_prefix classify_magic in refl)
      (unfold recovery_dispatch in refl)

-- A commit of 88 bytes whose digest field is 7 throughout, its footer, and a byte behind them.
abbrev frame_bytes : List ℕ
frame_bytes =
    b'T'
    ∷ b'2'
    ∷ b'C'
    ∷ b'2'
    ∷ 88
    ∷ 0
    ∷ 0
    ∷ 0
    ∷ (replicate 48 1
        ++ (replicate 32 7
            ++ (b'T' ∷ b'2' ∷ b'E' ∷ b'2' ∷ 128 ∷ 0 ∷ 0 ∷ 0 ∷ (replicate 32 7 ++ (0 ∷ [])))))

frame_bytes_probe : probe_hot_frame frame_bytes ≡ ok (complete 88 128)
unfolding probe_hot_frame read_u32 from_le_bytes probe_footer footer to_le_bytes check_footer
frame_bytes_probe = refl

probe_hot_frame-complete_example :
    (take 4 frame_bytes ≡ commit_magic)
    × (read_u32 frame_bytes 4 ≡ ok 88)
    × (commit_header_size ≤ 88)
    × IsFrame frame_bytes 88 128
probe_hot_frame-complete_example = probe_hot_frame-complete frame_bytes 88 128 frame_bytes_probe

failure_kind-durability_context_example :
    (failure_kind (durability_indeterminate_error wal_flush "wal" (from_raw_os_error (system 0) 28))
      ≡ indeterminate)
    ↔ (durability_context
          (durability_indeterminate_error wal_flush "wal" (from_raw_os_error (system 0) 28))
        ≢ none)
failure_kind-durability_context_example =
    failure_kind-durability_context
      (durability_indeterminate_error wal_flush "wal" (from_raw_os_error (system 0) 28))

failure_kind-recovery_context_example :
    (failure_kind (recovery_required_error "wal" none) ≡ recovery)
    ↔ (recovery_context (recovery_required_error "wal" none) ≢ none)
failure_kind-recovery_context_example =
    failure_kind-recovery_context (recovery_required_error "wal" none)
