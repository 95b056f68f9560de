-- ===== src/Scheduler/Service.antt =====
-- `PktScheduler::Enqueue` and `PktScheduler::Dequeue` as a whole.
use wspace_controller.Prelude.{
  suc, ◌≡◌, refl, sym, ◌∙◌, subst, true, false, List, [], ◌++◌, some, arith, length, Bool-cases,
  inl, inr, ◌≢◌, ◌==◌, if◌then◌else◌, ==_iff,
}
use wspace_controller.Prelude.Result.{ok}
use wspace_controller.Map.{find, put, has, has_elem}
use wspace_controller.Map.Laws.{has-find, get_or-find}
use wspace_controller.NodeId.{NodeId, node_id_eq}
use wspace_controller.Double.{Double, of_nat}
use wspace_controller.Scheduler.Queue.{Packet, PktQueue}
use wspace_controller.Scheduler.Queue.Laws.{
  IsValid, HaveLength, HaveLength-suffix, peek_top_pkt_size-zero, peek_top_pkt_size-nil,
}
use wspace_controller.Scheduler.Active
use wspace_controller.Scheduler.Active.{ActiveList}
use wspace_controller.Scheduler.Active.Laws.{IsSynced}
use wspace_controller.Scheduler.Drain.{DrainSpec, drain_lem, IsAffordable, IsSpent, charge}
use wspace_controller.Scheduler.{Status, PktScheduler, Drained, serves, drain, serve, no_status}

module _ {W : Type 0} where
  pub record Inv (s : PktScheduler W) : Type 0 where
    pub synced : IsSynced s.active_list
    pub valid : (k : NodeId) (q : PktQueue) → find k s.queues ≡ some q → IsValid q
    pub have_queues : (k : NodeId) → has k s.stats ≡ true → has k s.queues ≡ true

  -- Each client that has a status and a packet waits for service.
  abbrev pub NoneStalled : PktScheduler W → Type 0
  NoneStalled s =
      (k : NodeId) (q : PktQueue)
      → has k s.stats ≡ true
      → find k s.queues ≡ some q
      → q.packets ≢ []
      → has_elem k s.active_list.ids ≡ true

module _ {W : Type 0} ⦃d : Double W⦄ where
  -- What the service of a client does to it and to the scheduler.
  pub record ServeSpec (s : PktScheduler W) (id : NodeId) (pkts : List Packet) (s' : PktScheduler W)
      : Type 0 where
    pub q : PktQueue
    pub q' : PktQueue
    pub st : Status W
    pub st' : Status W
    pub had : find id s.queues ≡ some q
    pub known : find id s.stats ≡ some st
    pub queues : s'.queues ≡ put id q' s.queues
    pub stats : s'.stats ≡ put id st' s.stats
    pub split : q.packets ≡ pkts ++ q'.packets
    pub same_size : q'.max_size ≡ q.max_size
    pub mode : s'.fairness_mode ≡ s.fairness_mode
    pub affordable : IsAffordable st.throughput (d.plus st.counter st.quantum) pkts
    pub spent :
        IsSpent st.throughput (charge st.throughput (d.plus st.counter st.quantum) pkts) q'.packets
    pub same_throughput : st'.throughput ≡ st.throughput
    pub same_quantum : st'.quantum ≡ st.quantum
    pub emptied : q'.packets ≡ [] → (st'.counter ≡ of_nat 0) × (s'.active_list ≡ s.active_list)
    pub carried :
        q'.packets ≢ []
        → (st'.counter ≡ charge st.throughput (d.plus st.counter st.quantum) pkts)
          × (s'.active_list ≡ Active.append id s.active_list)

  credited : Status W → Status W
  credited st = record st { counter = d.plus st.counter st.quantum }

  after_drain : NodeId → PktScheduler W → Drained W → PktScheduler W
  after_drain id s r =
      if r.last_len == 0
      then record s {
        queues = put id r.queue s.queues;
        stats = put id (record (r.status) { counter = of_nat 0 }) s.stats;
      }
      else record s {
        queues = put id r.queue s.queues;
        stats = put id r.status s.stats;
        active_list = Active.append id s.active_list;
      }

  serve_runs :
      (id : NodeId) (s : PktScheduler W) (st : Status W) (q : PktQueue) (r : Drained W)
      → find id s.stats ≡ some st
      → find id s.queues ≡ some q
      → drain (suc (length q.packets)) (credited st) q [] ≡ ok r
      → serve id s ≡ ok (serves id r.pkts (after_drain id s r))
  unfolding serve after_drain credited
  serve_runs id s st q r known had run =
      rw (had, serve) (rw (get_or-find no_status id s.stats st known, run) (ground arith))

  module _ (id : NodeId) (s : PktScheduler W) (st : Status W) (q : PktQueue) (r : Drained W)
      (known : find id s.stats ≡ some st) (had : find id s.queues ≡ some q) (v : IsValid q)
      (spec : DrainSpec (credited st) q r.pkts r) where
    rest_lengths : HaveLength r.queue.packets
    rest_lengths = HaveLength-suffix r.pkts r.queue.packets (subst HaveLength spec.split v.lengths)

    ends_empty : (r.last_len == 0) ≡ true → r.queue.packets ≡ []
    ends_empty z =
        peek_top_pkt_size-zero r.queue rest_lengths (sym spec.last ∙ (==_iff r.last_len 0).0 z)

    ends_full : (r.last_len == 0) ≡ false → r.queue.packets ≢ []
    ends_full nz e = cc ((==_iff r.last_len 0).1 (spec.last ∙ peek_top_pkt_size-nil r.queue e))

    after_drain-ServeSpec : ServeSpec s id r.pkts (after_drain id s r)
    unfolding after_drain credited
    after_drain-ServeSpec = elim (Bool-cases (r.last_len == 0)) [
      | inl z ↦ record {
        q = q;
        q' = r.queue;
        st = st;
        st' = record (r.status) { counter = of_nat 0 };
        had = had;
        known = known;
        queues = rw z;
        stats = rw z;
        split = spec.split;
        same_size = spec.same_size;
        mode = rw z;
        affordable = spec.affordable;
        spent = rw (← spec.charged) spec.spent;
        same_throughput = spec.same_throughput;
        same_quantum = spec.same_quantum;
        emptied = λ _. (refl, rw z);
        carried = λ full. absurd (full (ends_empty z));
      }
      | inr nz ↦ record {
        q = q;
        q' = r.queue;
        st = st;
        st' = r.status;
        had = had;
        known = known;
        queues = rw nz;
        stats = rw nz;
        split = spec.split;
        same_size = spec.same_size;
        mode = rw nz;
        affordable = spec.affordable;
        spent = rw (← spec.charged) spec.spent;
        same_throughput = spec.same_throughput;
        same_quantum = spec.same_quantum;
        emptied = λ e. absurd (ends_full nz e);
        carried = λ _. (spec.charged, rw nz);
      }
    ]

  -- In a state that satisfies the invariant, a client with a status is served without a fault. It gets
  -- its quantum; the packets that come out are the front of its queue, in order, each covered by the
  -- counter when it was sent; service ends at the end of the queue, where the counter is reset, or at a
  -- packet that the counter does not cover, where the rest of the counter is kept and the client goes
  -- to the end of the active list. Other clients' queues and statuses, and a client's throughput and
  -- quantum, stay as they are.
  pub serve_lem :
      (id : NodeId) (s : PktScheduler W)
      → Inv s
      → has id s.stats ≡ true
      → (pkts : List Packet) × (s' : PktScheduler W) × (serve id s ≡ ok (serves id pkts s'))
        × ServeSpec s id pkts s'
  unfolding credited
  serve_lem id s inv h =
      let (st, known) = has-find id s.stats h in
      let (q, had) = has-find id s.queues (inv.have_queues id h) in
      let (r, sent, run, all, spec) =
        drain_lem (suc (length q.packets)) (credited st) q.max_size q.packets [] (omega arith) in
      (
        r.pkts,
        after_drain id s r,
        serve_runs id s st q r known had run,
        after_drain-ServeSpec id s st q r known had (inv.valid id q had)
            (subst (λ ps. DrainSpec (credited st) q ps r) (sym all) spec),
      )
