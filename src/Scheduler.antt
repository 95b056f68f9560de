-- ===== src/Scheduler.antt =====
-- `PktScheduler` of packet_scheduler.h and packet_scheduler.cc. The pointers of `queues_` are the
-- queues themselves: no queue is shared between two keys.
pub mod Queue
pub mod Active
pub mod Pick
pub mod Drain
pub mod Service
pub mod Fairness
pub mod Calls
pub mod Admission
pub mod Quantum
pub mod History
pub mod Stall
pub mod Start
pub mod Threads
use wspace_controller.Prelude.{
  ℕ, zero, suc, ◌≡◌, Bool, true, false, List, [], ◌∷◌, ◌++◌, Option, none, some, ◌==◌,
  if◌then◌else◌, length, map,
}
use wspace_controller.Prelude.Int.{ℤ, pos}
use wspace_controller.Prelude.Result.{
  Result, ok, err, ◌>>=◌, Fault, undefined, assert_failed, out_of_fuel,
}
use wspace_controller.Map.{Map, find, put, has, get_or, update}
use wspace_controller.NodeId.{NodeId, node_id_eq}
use wspace_controller.Double.{Double, of_nat, pkt_duration}
use Queue.{Packet, PktQueue, new_queue}
use Queue
use Active.{ActiveList}
use Active

-- A number from the command line may name none of the modes.
pub data FairnessMode : Type 0 where
  equal_time : FairnessMode
  equal_throughput : FairnessMode
  proportional_throughput : FairnessMode
  unknown_mode : ℤ → FairnessMode

pub record Status (W : Type 0) : Type 0 where
  pub throughput : W
  pub quantum : W
  pub counter : W

pub record PktScheduler (W : Type 0) : Type 0 where
  pub client_ids : List NodeId
  pub pkt_queue_size : ℕ
  pub queues : Map NodeId PktQueue
  pub stats : Map NodeId (Status W)
  pub active_list : ActiveList
  pub round_interval : ℕ
  pub fairness_mode : FairnessMode

-- How `Dequeue` goes on: it sleeps on the empty active list, or serves a client.
pub data Dequeued (W : Type 0) : Type 0 where
  waits : PktScheduler W → Dequeued W
  serves : NodeId → List Packet → PktScheduler W → Dequeued W

pub data Picked : Type 0 where
  nobody : ActiveList → Picked
  client : NodeId → ActiveList → Picked

-- Where the service of one client ends: the last length read, its status, its queue and its packets.
pub record Drained (W : Type 0) : Type 0 where
  pub last_len : ℕ
  pub status : Status W
  pub queue : PktQueue
  pub pkts : List Packet

module _ {W : Type 0} ⦃d : Double W⦄ where
  -- `Status ()`.
  abbrev pub no_status : Status W
  no_status = record { throughput = of_nat 0; quantum = of_nat 0; counter = of_nat 0 }

  unfoldable pub enqueue : List ℕ → ℕ → NodeId → PktScheduler W → Result (PktScheduler W)
  enqueue pkt len client_id s = elim (find client_id s.queues) [
    | none ↦ err undefined
    | some q ↦ do
      (stored, q') ← Queue.enqueue pkt len q
      let s' = record s { queues = put client_id q' s.queues }
      ok (if stored then record s' { active_list = Active.append client_id s'.active_list } else s')
  ]

  -- The first loop of `Dequeue`: ids that have no status any more are dropped.
  unfoldable pub pick : ℕ → Map NodeId (Status W) → ActiveList → Result Picked
  pick zero stats l = err out_of_fuel
  pick (suc n) stats l = elim (Active.remove l) [
    | none ↦ ok (nobody l)
    | some (id, l') ↦ let rest = pick n stats l' in if has id stats then ok (client id l') else rest
  ]

  -- The second loop: packets are sent while the counter lasts.
  unfoldable pub drain : ℕ → Status W → PktQueue → List Packet → Result (Drained W)
  drain zero st q pkts = err out_of_fuel
  drain (suc n) st q pkts =
      let len = Queue.peek_top_pkt_size q in
      let cost = d.of_int (pkt_duration len st.throughput) in
      let stop : Result (Drained W) =
        ok (record { last_len = len; status = st; queue = q; pkts = pkts }) in
      let rest : Result (Drained W) = (do
        (p, q') ← Queue.dequeue q
        drain n (record st { counter = d.minus st.counter cost }) q' (pkts ++ p ∷ [])) in
      if len == 0 then stop else if d.lt st.counter cost then stop else rest

  -- What `Dequeue` does with the client that it picked.
  unfoldable pub serve : NodeId → PktScheduler W → Result (Dequeued W)
  serve id s =
      let st = get_or no_status id s.stats in
      let st' = record st { counter = d.plus st.counter st.quantum } in
      elim (find id s.queues) [
        | none ↦ err undefined
        | some q ↦ do
          r ← drain (suc (length q.packets)) st' q []
          let s' = record s { queues = put id r.queue s.queues }
          ok (
              if r.last_len == 0
              then serves id r.pkts
                  (record s' { stats = put id (record (r.status) { counter = of_nat 0 }) s.stats })
              else serves id r.pkts (record s' {
                stats = put id r.status s.stats;
                active_list = Active.append id s'.active_list;
              }))
      ]

  unfoldable pub dequeue : PktScheduler W → Result (Dequeued W)
  dequeue s = do
    picked ← pick (suc (length s.active_list.ids)) s.stats s.active_list
    elim picked [
      | nobody l ↦ ok (waits (record s { active_list = l }))
      | client id l ↦ serve id (record s { active_list = l })
    ]
