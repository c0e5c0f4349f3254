-- ===== src/Recovery/Replay.antt =====
-- Replaying a log entry by entry.
use persisthotstuff_rst.Base.{
  ◌≡◌, ◌≢◌, ◌<◌, refl, ◌∙◌, inl, inr, List, [], ◌∷◌, ◌++◌, length, arith, ◌⊎◌, Bool-cases, ◌==◌,
}
use persisthotstuff_rst.Wal.Entry.{
  LogEntry, block_inserted, vote_received, qc_formed, high_qc_updated, block_committed,
  view_changed, snapshot_taken,
}
use persisthotstuff_rst.Recovery.{
  Base, RecResult, ok, err, out_of_order_commit, replay_entry, replay,
}

pub RecResult-cases :
    {A : Type 0} (x : RecResult A) → ((e : _) × (x ≡ err e)) ⊎ ((a : A) × (x ≡ ok a))
RecResult-cases (ok a) = inr (a, refl)
RecResult-cases (err e) = inl (e, refl)

-- The entries of a log are replayed one part after the other.
pub replay-append :
    (s s' : Base) (es fs : List LogEntry) → replay s es ≡ ok s' → replay s (es ++ fs) ≡ replay s' fs
unfolding replay
replay-append s s' [] fs h = ground arith
replay-append s s' (e ∷ es) fs h = elim (RecResult-cases (replay_entry s e)) [
  | inl (x, n) ↦ absurd (ground arith)
  | inr (t, p) ↦ rw (p, replay) (replay-append t s' es fs (ground arith))
]

pub replay_one :
    (s s' t : Base) (es : List LogEntry) (e : LogEntry)
    → replay s es ≡ ok s'
    → replay_entry s' e ≡ ok t
    → replay s (es ++ e ∷ []) ≡ ok t
unfolding replay
replay_one s s' t es e h k = replay-append s s' es (e ∷ []) h ∙ ground arith

-- A log with a commit, replayed on a state with another number of committed blocks than the one
-- that it belongs to, is refused at that commit.
pub replay_elsewhere :
    (es : List LogEntry) (s other t : Base)
    → replay s es ≡ ok t
    → length s.committed_log < length t.committed_log
    → length other.committed_log ≢ length s.committed_log
    → replay other es
      ≡ err (out_of_order_commit (length other.committed_log) (length s.committed_log))
unfolding replay
replay_elsewhere [] s other t h more ne = absurd (ground arith)
replay_elsewhere (block_committed hash parent view epoch proposer command index time ∷ es) s other t
      h more ne =
    elim (Bool-cases (index == length s.committed_log)) [
      | inl y ↦ ground arith
      | inr n ↦ absurd (ground arith)
    ]
replay_elsewhere (block_inserted hash p v e pr qh qv c time ∷ es) s other t h more ne =
    replay_elsewhere es _ _ t h more ne
replay_elsewhere (vote_received b v id time ∷ es) s other t h more ne =
    replay_elsewhere es _ _ t h more ne
replay_elsewhere (qc_formed b v e n time ∷ es) s other t h more ne =
    replay_elsewhere es _ _ t h more ne
replay_elsewhere (high_qc_updated b v e time ∷ es) s other t h more ne =
    replay_elsewhere es _ _ t h more ne
replay_elsewhere (view_changed o n r time ∷ es) s other t h more ne =
    replay_elsewhere es _ _ t h more ne
replay_elsewhere (snapshot_taken id l time ∷ es) s other t h more ne =
    replay_elsewhere es _ _ t h more ne
