-- ===== src/Scheduler/Quantum.antt =====
-- The constructor of `PktScheduler`, `ComputeQuantum` with its three modes, and `stats`.
pub mod Laws
pub mod Fill
pub mod Correct
use wspace_controller.Prelude.{
  ℕ, ◌≡◌, Bool, true, false, List, [], ◌∷◌, ◌++◌, if◌then◌else◌, length, map, not,
}
use wspace_controller.Prelude.Int.{ℤ, pos}
use wspace_controller.Prelude.Result.{Result, ok, err, ◌>>=◌, Fault, assert_failed}
use wspace_controller.Map.{Map, put, has, get_or, update}
use wspace_controller.NodeId.{NodeId, node_id_eq}
use wspace_controller.Double.{Double, of_nat}
use wspace_controller.Scheduler.Queue.{PktQueue, new_queue, clear}
use wspace_controller.Scheduler.Active
use wspace_controller.Scheduler.{
  Status, FairnessMode, equal_time, equal_throughput, proportional_throughput, unknown_mode,
  PktScheduler, no_status,
}

abbrev pub Stats : Type 0 → Type 0
Stats W = Map NodeId (Status W)

module _ {W : Type 0} ⦃d : Double W⦄ where
  abbrev pub with_quantum : W → Status W → Status W
  with_quantum x st = record st { quantum = x }

  abbrev pub with_throughput : W → Status W → Status W
  with_throughput x st = record st { throughput = x }

  -- The loop of the constructor.
  unfoldable pub add_clients : ℕ → W → W → List NodeId → PktScheduler W → PktScheduler W
  add_clients size quantum min_throughput [] s = s
  add_clients size quantum min_throughput (c ∷ cs) s =
      add_clients size quantum min_throughput cs (record s {
        queues = put c (new_queue size) s.queues;
        stats =
            update no_status c (with_throughput min_throughput)
              (update no_status c (with_quantum quantum) s.stats);
      })

  unfoldable pub new_scheduler : W → List NodeId → ℕ → ℕ → FairnessMode → PktScheduler W
  unfolding add_clients
  new_scheduler min_throughput client_ids pkt_queue_size round_interval mode =
      add_clients pkt_queue_size (d.over (of_nat round_interval) (of_nat (length client_ids)))
        min_throughput client_ids
        (record {
          client_ids = client_ids;
          pkt_queue_size = pkt_queue_size;
          queues = [];
          stats = [];
          active_list = Active.empty;
          round_interval = round_interval;
          fairness_mode = mode;
        })

  -- The first loop of `ComputeQuantum`, over the new throughputs.
  unfoldable pub take_throughputs : Map NodeId W → PktScheduler W → PktScheduler W
  take_throughputs [] s = s
  take_throughputs ((c, t) ∷ ts) s = take_throughputs ts (record s {
    client_ids = s.client_ids ++ c ∷ [];
    stats = update no_status c (with_throughput t) s.stats;
    queues = if has c s.queues then s.queues else put c (new_queue s.pkt_queue_size) s.queues;
  })

  -- The second loop: the queues of clients with no throughput are cleared.
  unfoldable pub clear_others : Map NodeId W → Map NodeId PktQueue → Map NodeId PktQueue
  clear_others ts [] = []
  clear_others ts ((c, q) ∷ queues) =
      (c, if not (has c ts) then clear q else q) ∷ clear_others ts queues

  -- `stats_[client_id].throughput`.
  abbrev pub throughput_of : Stats W → NodeId → W
  throughput_of stats c = let st = get_or no_status c stats in st.throughput

  -- `ComputeQuantumEqualTime`.
  unfoldable pub share_time : W → List NodeId → Stats W → Stats W
  share_time quantum [] stats = stats
  share_time quantum (c ∷ cs) stats =
      share_time quantum cs (update no_status c (with_quantum quantum) stats)

  -- The two loops of `ComputeQuantumProportionalThroughput`.
  unfoldable pub total_throughput : List NodeId → Stats W → W → W
  total_throughput [] stats sum = sum
  total_throughput (c ∷ cs) stats sum =
      total_throughput cs stats (d.plus sum (throughput_of stats c))

  unfoldable pub share_proportionally : W → ℕ → List NodeId → Stats W → Stats W
  share_proportionally total round [] stats = stats
  share_proportionally total round (c ∷ cs) stats = share_proportionally total round cs (
      update no_status c
        (with_quantum (d.times (d.over (throughput_of stats c) total) (of_nat round))) stats)

  -- The two loops of `ComputeQuantumEqualThroughput`; `proportion` is the array, `sum` its sum.
  unfoldable pub proportion : List NodeId → Stats W → List W
  proportion [] stats = []
  proportion (c ∷ cs) stats = d.over (of_nat 1) (throughput_of stats c) ∷ proportion cs stats

  unfoldable pub add_up : List W → W → W
  add_up [] sum = sum
  add_up (x ∷ xs) sum = add_up xs (d.plus sum x)

  unfoldable pub share_inversely : W → ℕ → List NodeId → List W → Stats W → Stats W
  share_inversely sum round (c ∷ cs) (x ∷ xs) stats =
      share_inversely sum round cs xs
        (update no_status c (with_quantum (d.times (d.over x sum) (of_nat round))) stats)
  share_inversely sum round _ _ stats = stats

  -- The `switch` of `ComputeQuantum`. The default case is an assertion that fails.
  unfoldable pub share : FairnessMode → ℕ → List NodeId → Stats W → Result (Stats W)
  unfolding share_time total_throughput share_proportionally proportion add_up share_inversely
  share equal_time round cs stats =
      ok (share_time (d.over (of_nat round) (of_nat (length cs))) cs stats)
  share proportional_throughput round cs stats =
      ok (share_proportionally (total_throughput cs stats (of_nat 0)) round cs stats)
  share equal_throughput round cs stats =
      let ps = proportion cs stats in ok (share_inversely (add_up ps (of_nat 0)) round cs ps stats)
  share (unknown_mode m) round cs stats = err assert_failed

  unfoldable pub compute_quantum : Map NodeId W → PktScheduler W → Result (PktScheduler W)
  unfolding take_throughputs clear_others
  compute_quantum ts s = do
    let s1 = take_throughputs ts (record s { client_ids = []; stats = [] })
    let s2 = record s1 { queues = clear_others ts s1.queues }
    stats ← share s2.fairness_mode s2.round_interval s2.client_ids s2.stats
    ok (record s2 { stats = stats })
