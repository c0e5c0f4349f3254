-- ===== src/Recovery/Durability.antt =====
-- The log of a replica against its memory: after any handler, a crash and a recovery from the log
-- bring back the committed blocks, the high QC and the view.
pub mod Handlers
pub mod Commits
use persisthotstuff_rst.Base.{
  ℕ, zero, suc, ◌+◌, ◌≡◌, ◌≢◌, refl, sym, ap, ◌∙◌, inl, inr, Option, none, some, List, [], ◌∷◌,
  ◌++◌, map, length, leb, if◌then◌else◌, arith, Bool-cases, Option-cases, max,
}
use mathlib.Core.Path.{subst}
use mathlib.Core.List.{map-append}
use mathlib.Core.Option
use persisthotstuff_rst.BTree
use persisthotstuff_rst.Types.{
  Hash, Block, QuorumCert, Vote, Signature, ConsensusCommand, no_op, client_tx, join_validator,
  remove_validator, saturating_suc,
}
use persisthotstuff_rst.Crypto.{add_public_key}
use persisthotstuff_rst.Wal
use persisthotstuff_rst.Wal.{Wal, WalLib, WalLaws, append, write_all, frame, open_wal, read_all}
use persisthotstuff_rst.Wal.RoundTrip.{IsLog, append-IsLog}
use persisthotstuff_rst.Wal.Entry.{
  LogEntry, ViewChangeReason, qc_formed, high_qc_updated, view_changed, from_block,
  from_committed_block,
}
use persisthotstuff_rst.Replica.{Env, Replica, log, record_entry, dynamic_quorum_size}
use persisthotstuff_rst.Replica.Votes.{
  handle_vote, is_rejected, pooled, has_signed, try_form_qc, apply_high_qc_from_network,
  should_update,
}
use persisthotstuff_rst.Replica.Proposals.{validate_and_insert_proposal, propose_command}
use persisthotstuff_rst.Replica.Commit.{
  execute_and_commit, push_committed, apply_membership_command, commit_loop, commit_all,
  find_committed_block,
}
use persisthotstuff_rst.Replica.Commit.Termination.{commit_loop_stop, commit_loop_next}
use persisthotstuff_rst.Replica.Pacemaker.{advance_view_with_reason}
use persisthotstuff_rst.Recovery.{Base, ok, fresh, unsigned_qc, dominated, replay_entry, replay}
use persisthotstuff_rst.Recovery.Replay.{replay_one}

-- A committed block as the log keeps it: without its certificate and its command.
abbrev pub commit_stub : Block → Block
commit_stub b = record b { qc = none; command = no_op }

abbrev pub unsigned : QuorumCert → QuorumCert
unsigned qc = unsigned_qc qc.block_hash qc.view qc.epoch

pub length-map_stub : (bs : List Block) → length (map commit_stub bs) ≡ length bs
length-map_stub [] = refl
length-map_stub (b ∷ bs) = ap suc (length-map_stub bs)

pub map_stub-map_stub :
    (bs : List Block) → map commit_stub (map commit_stub bs) ≡ map commit_stub bs
map_stub-map_stub [] = refl
map_stub-map_stub (b ∷ bs) = ap (λ l. commit_stub b ∷ l) (map_stub-map_stub bs)

-- Every entry can be serialised. With the assumption of `WalLaws` on the size of payloads this
-- leaves out entries of 4 GiB and more, which bincode could serialise and the format cannot hold.
abbrev pub AlwaysSerializes : WalLib → Type 0
AlwaysSerializes lib = (e : LogEntry) → lib.serialize e ≢ none

pub append_total :
    (lib : WalLib) (w : Wal) (e : LogEntry)
    → lib.serialize e ≢ none
    → (v : Wal) × (append lib w e ≡ Wal.ok v)
unfolding append
append_total lib w e n = elim (Option-cases (lib.serialize e)) [
  | inl m ↦ absurd (n m)
  | inr (p, h) ↦
      (record (write_all w (frame lib p)) { entry_count = w.entry_count + 1 }, rw (h, append))
]

-- What replaying an inserted block leaves alone.
pub record SameBase (s t : Base) : Type 0 where
  pub committed : t.committed_log ≡ s.committed_log
  pub up_to : t.committed_up_to ≡ s.committed_up_to
  pub certificate : t.high_qc ≡ s.high_qc
  pub view : t.current_view ≡ s.current_view

pub inserted :
    (s : Base) (b : Block) (now : ℕ)
    → (t : Base) × (replay_entry s (from_block b now) ≡ ok t) × SameBase s t
unfolding replay_entry
inserted s b now =
    (_, refl, record { committed = refl; up_to = refl; certificate = refl; view = refl })

module _ (env : Env) where
  -- The parts of the memory that the log mirrors.
  pub record SameMemory (r s : Replica env) : Type 0 where
    pub committed : s.committed_log ≡ r.committed_log
    pub up_to : s.committed_up_to ≡ r.committed_up_to
    pub certificate : s.high_qc ≡ r.high_qc
    pub view : s.current_view ≡ r.current_view

-- The recovery started with the state `start`, of a snapshot or the fresh one.
module _ (env : Env) (start : Base) where
  -- The recovered state agrees with the memory of the replica, but for what a log leaves out.
  pub record Mirrors (r : Replica env) (s : Base) : Type 0 where
    pub committed : map commit_stub s.committed_log ≡ map commit_stub r.committed_log
    pub up_to : s.committed_up_to ≡ r.committed_up_to
    pub certificate : Option.map unsigned s.high_qc ≡ Option.map unsigned r.high_qc
    pub view : s.current_view ≡ r.current_view

  -- The log file holds entries that replay to the given state.
  pub record Logged (wal : Option Wal) (s : Base) : Type 0 where
    pub file : Wal
    pub entries : List LogEntry
    pub attached : wal ≡ some file
    pub holds : IsLog env.wal_lib file entries
    pub replays : replay start entries ≡ ok s

  pub record IsDurable (r : Replica env) : Type 0 where
    pub base : Base
    pub logged : Logged r.wal base
    pub mirrors : Mirrors r base

  -- One more entry in the log is one more step of the replay.
  pub record_entry-Logged :
      (serializes : AlwaysSerializes env.wal_lib) (wal : Option Wal) (s t : Base) (e : LogEntry)
      → Logged wal s
      → replay_entry s e ≡ ok t
      → Logged (record_entry env wal e) t
  unfolding record_entry
  record_entry-Logged serializes wal s t e l k =
      let a = append_total env.wal_lib l.file e (serializes e) in
      record {
        file = a.0;
        entries = l.entries ++ e ∷ [];
        attached = rw (l.attached, record_entry) (rw (a.1));
        holds = append-IsLog env.wal_lib l.file a.0 l.entries e l.holds a.1;
        replays = replay_one start s t l.entries e l.replays k;
      }

  pub unlogged-IsDurable :
      (r s : Replica env) → SameMemory env r s → s.wal ≡ r.wal → IsDurable r → IsDurable s
  unlogged-IsDurable r s m w d = record {
    base = d.base;
    logged = record {
      file = d.logged.file;
      entries = d.logged.entries;
      attached = w ∙ d.logged.attached;
      holds = d.logged.holds;
      replays = d.logged.replays;
    };
    mirrors = record {
      committed = d.mirrors.committed ∙ ap (map commit_stub) (sym m.committed);
      up_to = d.mirrors.up_to ∙ sym m.up_to;
      certificate = d.mirrors.certificate ∙ ap (Option.map unsigned) (sym m.certificate);
      view = d.mirrors.view ∙ sym m.view;
    };
  }

  -- A handler that logs one entry keeps the replica durable, if the entry does to the recovered
  -- state what the handler does to the memory.
  pub logged-IsDurable :
      (serializes : AlwaysSerializes env.wal_lib) (r s : Replica env) (e : LogEntry)
      → (d : IsDurable r) → (t : Base) → replay_entry d.base e ≡ ok t
      → s.wal ≡ record_entry env r.wal e
      → Mirrors s t
      → IsDurable s
  logged-IsDurable serializes r s e d t k w m = record {
    base = t;
    logged =
        subst (λ x. Logged x t) (sym w)
          (record_entry-Logged serializes r.wal d.base t e d.logged k);
    mirrors = m;
  }
