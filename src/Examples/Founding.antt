-- ===== src/Examples/Founding.antt =====
-- The theorems on a cluster that crashes and recovers, applied.
use persisthotstuff_rst.Base.{
  ℕ, zero, suc, ◌+◌, ◌*◌, ◌≡◌, refl, ap, Option, true, false, none, some, List, [], ◌∷◌, get_elem?,
  replicate, set, Bool, length, arith,
}
use mathlib.Core.Path.{subst}
use persisthotstuff_rst.Recovery.{DataDir}
use persisthotstuff_rst.BTree.{contains, insert, insert_key, values}
use persisthotstuff_rst.Types.{no_op, client_tx}
use persisthotstuff_rst.Machine.{Event, step, run, certificate_arrives, leads, commits}
use persisthotstuff_rst.Replica.Commit.{commit_all, try_commit_once}
use persisthotstuff_rst.Replica.Proposals.{propose_command}
use persisthotstuff_rst.Replica.Votes.{apply_high_qc_from_network}
use persisthotstuff_rst.Simulation.Held.{set-Cells}
use persisthotstuff_rst.Simulation.Dependable.{IsDependable, IsDependable-Keeps}
use persisthotstuff_rst.Crypto.{KeyStore}
use persisthotstuff_rst.Network.{new}
use persisthotstuff_rst.Replica.{Replica, log}
use persisthotstuff_rst.Simulation.{Simulation, done, is_crashed}
use persisthotstuff_rst.Simulation.Start.{new_with_options}
use persisthotstuff_rst.Simulation.Election.{enqueue_client_command, current_leader}
use persisthotstuff_rst.Simulation.Crash.{set_replica_unresponsive, crash_replica}
use persisthotstuff_rst.Simulation.Rejoin.{recover_replica}
use persisthotstuff_rst.Simulation.Actions.{crash, enqueue, set_unresponsive, play}
use persisthotstuff_rst.Simulation.Catchup.{Extends}
use persisthotstuff_rst.Simulation.Recovered.{get_below}
use persisthotstuff_rst.Simulation.Deeds.{
  committed_stays_committed, Deed, acts, recovers, perform, perform_all, crashed_are_recoverable,
}
use persisthotstuff_rst.Simulation.Recoverable.{IsReady}
use persisthotstuff_rst.Simulation.Founded.{nothing, new_with_options-IsReady}
use persisthotstuff_rst.Lifetime.Survival.{empty_disk}
use persisthotstuff_rst.Simulation.Dependable.{IsUp}
use persisthotstuff_rst.Examples.{keys4}
use persisthotstuff_rst.Examples.Lifetimes.{certified, member, member-IsKept}
use persisthotstuff_rst.Examples.Total.{total_wal-WalLaws, total_wal-AlwaysSerializes}
use persisthotstuff_rst.Examples.TotalSnap.{total_env, total_snap-ReadsBack, total_snap-AlwaysPacks}

abbrev four_keys : List (KeyStore total_env.crypto)
four_keys = keys4 ∷ keys4 ∷ keys4 ∷ keys4 ∷ []

abbrev Ready4 : ℕ → Simulation total_env → Type 0
Ready4 k s =
    IsReady total_env nothing total_wal-WalLaws total_snap-ReadsBack total_snap-AlwaysPacks
      total_wal-AlwaysSerializes 4 four_keys k s

new_with_options-IsReady_example :
    (s : Simulation total_env) × (new_with_options total_env 4 1 100 true four_keys
        (replicate 4 (empty_disk total_env))
        7
      ≡ (done, some s))
    × Ready4 0 s
new_with_options-IsReady_example =
    new_with_options-IsReady total_env total_wal-WalLaws total_snap-ReadsBack total_snap-AlwaysPacks
      total_wal-AlwaysSerializes 4 1 100 four_keys 7 refl

-- Four replicas that run.
abbrev running : Simulation total_env
running = record {
  replicas = member 0 ∷ member 1 ∷ member 2 ∷ member 3 ∷ [];
  network = new 4;
  step = 0;
  max_steps = 100;
  persistence_enabled = true;
  disks = replicate 4 (empty_disk total_env);
  replica_keystores = four_keys;
  crashed_replicas = [];
  unresponsive_replicas = [];
  last_response_ms = 0 ∷ 0 ∷ 0 ∷ 0 ∷ [];
  simulated_time_ms = 0;
  round_time_ms = 1000;
}

pub member-IsUp : (id : ℕ) → IsUp total_env nothing 0 id (member id) (empty_disk total_env)
member-IsUp id = record {
  kept = member-IsKept id;
  few = omega arith;
  low = omega arith;
  grown = (omega arith, λ i a b g k. cc);
}

abbrev or_default : {A : Type 0} → A → Option A → A
or_default x none = x
or_default x (some y) = y

placed-IsUp :
    (id : ℕ) (r : Replica total_env) (d : DataDir)
    → some (member id) ≡ some r
    → some (empty_disk total_env) ≡ some d
    → IsUp total_env nothing 0 id r d
placed-IsUp id r d g y =
    let q : member id ≡ r = ap (or_default (member id)) g in
    let o : empty_disk total_env ≡ d = ap (or_default (empty_disk total_env)) y in
    subst (λ x. IsUp total_env nothing 0 id r x) o
      (subst (λ x. IsUp total_env nothing 0 id x (empty_disk total_env)) q (member-IsUp id))

running-IsUp :
    (id : ℕ) (r : Replica total_env) (d : DataDir)
    → get_elem? running.replicas id ≡ some r
    → get_elem? running.disks id ≡ some d
    → IsUp total_env nothing 0 id r d
running-IsUp zero r d g y = placed-IsUp 0 r d g y
running-IsUp (suc zero) r d g y = placed-IsUp 1 r d g y
running-IsUp (suc (suc zero)) r d g y = placed-IsUp 2 r d g y
running-IsUp (suc (suc (suc zero))) r d g y = placed-IsUp 3 r d g y
running-IsUp (suc (suc (suc (suc id)))) r d g y = cc

running-IsReady : Ready4 0 running
unfolding contains
running-IsReady = record {
  is_on = refl;
  same_keys = refl;
  same_crashed = refl;
  size = refl;
  cells = record { same_length = refl; cell = λ id r d g y b. running-IsUp id r d g y };
}

abbrev two_crashes : List Deed
two_crashes =
    acts (enqueue no_op)
    ∷ acts (crash 2 10)
    ∷ acts (crash 1 20)
    ∷ acts (set_unresponsive 3 true)
    ∷ []

crashed_are_recoverable_example :
    ((recover_replica total_env (perform_all total_env running two_crashes) 2 30).1 ≡ done)
    × (is_crashed total_env
          (recover_replica total_env (perform_all total_env running two_crashes) 2 30).0
          2
        ≡ false)
    × Ready4
        (suc (suc 4 * 4 + 0))
        (recover_replica total_env (perform_all total_env running two_crashes) 2 30).0
unfolding perform_all perform play crash_replica set_replica_unresponsive is_crashed
    enqueue_client_command current_leader contains insert_key
crashed_are_recoverable_example =
    crashed_are_recoverable total_env nothing total_wal-WalLaws total_snap-ReadsBack
      total_snap-AlwaysPacks total_wal-AlwaysSerializes 4 four_keys 0 running two_crashes 2 30 refl
      (omega arith) running-IsReady (omega arith) refl

-- Replica 0 leads in three views, and commits the genesis block and the block of the first.
abbrev pub work : List Event
work =
    certificate_arrives (certified 0 0) 1
    ∷ leads 4 no_op 2
    ∷ certificate_arrives (certified 1 4) 3
    ∷ leads 8 (client_tx (104 ∷ 105 ∷ [])) 4
    ∷ certificate_arrives (certified 2 8) 5
    ∷ leads 12 no_op 6
    ∷ commits 7
    ∷ []

abbrev pub veteran : Replica total_env
veteran = run total_env (member 0) work

pub veteran_has_committed : length veteran.committed_log ≡ 2
unfolding run commit_all try_commit_once values propose_command apply_high_qc_from_network log
    insert
veteran_has_committed = refl

pub run-IsDependable :
    (es : List Event) (r : Replica total_env) (d : DataDir) (c : Bool)
    → IsDependable total_env nothing 0 0 r d c
    → IsDependable total_env nothing 0 0 (run total_env r es) d c
unfolding run
run-IsDependable [] r d c u = u
run-IsDependable (e ∷ es) r d c u = run-IsDependable es (step total_env r e) d c (
    (IsDependable-Keeps total_env nothing total_wal-WalLaws total_snap-ReadsBack
        total_wal-AlwaysSerializes).handles
      0 0 r d c e u)

abbrev experienced : Simulation total_env
experienced = record running { replicas = set running.replicas 0 veteran }

experienced-IsReady : Ready4 0 experienced
experienced-IsReady =
    let h = running-IsReady in
    record {
      is_on = h.is_on;
      same_keys = h.same_keys;
      same_crashed = h.same_crashed;
      size = refl;
      cells =
          set-Cells total_env (IsDependable total_env nothing) 0 [] running.replicas running.disks 0
            (member 0) veteran refl (λ d c u. run-IsDependable work (member 0) d c u) h.cells;
    }

-- Two replicas crash, one after the other.
abbrev crash_and_crash : List Deed
crash_and_crash = acts (crash 0 10) ∷ acts (crash 1 20) ∷ []

came_back :
    ((recover_replica total_env (perform_all total_env experienced crash_and_crash) 0 30).1 ≡ done)
    × (is_crashed total_env
          (recover_replica total_env (perform_all total_env experienced crash_and_crash) 0 30).0
          0
        ≡ false)
    × Ready4
        (suc (suc 4 * 2 + 0))
        (recover_replica total_env (perform_all total_env experienced crash_and_crash) 0 30).0
unfolding perform_all perform play crash_replica is_crashed contains insert_key
came_back =
    crashed_are_recoverable total_env nothing total_wal-WalLaws total_snap-ReadsBack
      total_snap-AlwaysPacks total_wal-AlwaysSerializes 4 four_keys 0 experienced crash_and_crash 0
      30 refl (omega arith) experienced-IsReady (omega arith) refl

-- Then the first of them is recovered.
abbrev crash_and_return : List Deed
crash_and_return = acts (crash 0 10) ∷ acts (crash 1 20) ∷ recovers 0 30 ∷ []

returned :
    (t : Replica total_env) × (get_elem?
        (perform_all total_env experienced crash_and_return).replicas
        0
      ≡ some t)
unfolding perform_all perform
returned =
    get_below (perform_all total_env experienced crash_and_return).replicas 0
      (omega (arith, came_back.2.size))

committed_stays_committed_example : Extends veteran.committed_log (returned.0).committed_log
unfolding perform_all perform is_crashed contains
committed_stays_committed_example =
    committed_stays_committed total_env total_wal-WalLaws total_snap-ReadsBack
      total_snap-AlwaysPacks total_wal-AlwaysSerializes 4 four_keys nothing 0 experienced
      crash_and_return 0 veteran returned.0 refl (omega arith) experienced-IsReady refl refl
      returned.1 came_back.1
