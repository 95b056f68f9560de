-- ===== src/Scheduler/Drain.antt =====
-- The second loop of `PktScheduler::Dequeue`: which packets of the client are sent.
use wspace_controller.Prelude.{
  ℕ, zero, suc, ◌<◌, ◌≡◌, refl, sym, ap, ◌∙◌, true, false, List, [], ◌∷◌, ◌++◌, arith, length,
  append_assoc, append-nil, Bool-cases, inl, inr, ◌⊎◌, ◌≢◌, ◌==◌, ==-ne,
}
use wspace_controller.Prelude.Result.{ok}
use wspace_controller.NodeId.{node_id_eq}
use wspace_controller.Double.{Double, pkt_duration}
use wspace_controller.Scheduler.Queue.{Packet, PktQueue, peek_top_pkt_size}
use wspace_controller.Scheduler.Queue
use wspace_controller.Scheduler.{Status, Drained, drain}

abbrev pub of_packets : ℕ → List Packet → PktQueue
of_packets size ps = record { max_size = size; packets = ps }

module _ {W : Type 0} ⦃d : Double W⦄ where
  -- The time to send the packet, as it is taken from the counter.
  abbrev pub cost : W → Packet → W
  cost throughput p = d.of_int (pkt_duration p.len throughput)

  -- The counter after the packets are sent.
  abbrev pub charge : W → W → List Packet → W
  charge throughput counter [] = counter
  charge throughput counter (p ∷ ps) = charge throughput (d.minus counter (cost throughput p)) ps

  -- The counter covers each packet when its turn comes.
  abbrev pub IsAffordable : W → W → List Packet → Type 0
  IsAffordable throughput counter [] = Unit
  IsAffordable throughput counter (p ∷ ps) =
      (d.lt counter (cost throughput p) ≡ false)
      × IsAffordable throughput (d.minus counter (cost throughput p)) ps

  -- Nothing more can be sent: the queue is at its end, or the counter is below the next packet's cost.
  abbrev pub IsSpent : W → W → List Packet → Type 0
  IsSpent throughput counter [] = Unit
  IsSpent throughput counter (p ∷ ps) = (p.len ≡ 0) ⊎ (d.lt counter (cost throughput p) ≡ true)

  -- What the second loop does to a client's status and queue when it sends the packets `sent`.
  pub record DrainSpec (st : Status W) (q : PktQueue) (sent : List Packet) (r : Drained W)
      : Type 0 where
    pub split : q.packets ≡ sent ++ r.queue.packets
    pub same_size : r.queue.max_size ≡ q.max_size
    pub same_throughput : r.status.throughput ≡ st.throughput
    pub same_quantum : r.status.quantum ≡ st.quantum
    pub charged : r.status.counter ≡ charge st.throughput st.counter sent
    pub affordable : IsAffordable st.throughput st.counter sent
    pub spent : IsSpent st.throughput r.status.counter r.queue.packets
    pub last : r.last_len ≡ peek_top_pkt_size r.queue

  abbrev paid : Status W → Packet → Status W
  paid st p = record st { counter = d.minus st.counter (cost st.throughput p) }

  abbrev stopped : Status W → PktQueue → List Packet → Drained W
  stopped st q pkts = record { last_len = peek_top_pkt_size q; status = st; queue = q; pkts = pkts }

  drain_stop :
      (n : ℕ) (st : Status W) (size : ℕ) (ps pkts : List Packet)
      → IsSpent st.throughput st.counter ps
      → drain (suc n) st (of_packets size ps) pkts ≡ ok (stopped st (of_packets size ps) pkts)
  unfolding drain peek_top_pkt_size
  drain_stop n st size [] pkts spent = refl
  drain_stop n st size (p ∷ ps) pkts (inl e) = ground arith
  drain_stop n st size (p ∷ ps) pkts (inr e) = ground arith

  stopped-DrainSpec :
      (st : Status W) (q : PktQueue) (pkts : List Packet)
      → IsSpent st.throughput st.counter q.packets
      → DrainSpec st q [] (stopped st q pkts)
  stopped-DrainSpec st q pkts spent = record {
    split = refl;
    same_size = refl;
    same_throughput = refl;
    same_quantum = refl;
    charged = refl;
    affordable = tt;
    spent = spent;
    last = refl;
  }

  drain_send :
      (n : ℕ) (st : Status W) (size : ℕ) (p : Packet) (ps pkts : List Packet)
      → p.len ≢ 0
      → d.lt st.counter (cost st.throughput p) ≡ false
      → drain (suc n) st (of_packets size (p ∷ ps)) pkts
        ≡ drain n (paid st p) (of_packets size ps) (pkts ++ p ∷ [])
  unfolding drain peek_top_pkt_size Queue.dequeue
  drain_send n st size p ps pkts h t = rw (==-ne p.len 0 h, t)

  sent-DrainSpec :
      (st : Status W) (size : ℕ) (p : Packet) (ps sent : List Packet) (r : Drained W)
      → d.lt st.counter (cost st.throughput p) ≡ false
      → DrainSpec (paid st p) (of_packets size ps) sent r
      → DrainSpec st (of_packets size (p ∷ ps)) (p ∷ sent) r
  sent-DrainSpec st size p ps sent r t s = record {
    split = ap (◌∷◌ p) s.split;
    same_size = s.same_size;
    same_throughput = s.same_throughput;
    same_quantum = s.same_quantum;
    charged = s.charged;
    affordable = (t, s.affordable);
    spent = s.spent;
    last = s.last;
  }

  next_packet :
      (st : Status W) (p : Packet)
      → ((p.len ≡ 0) ⊎ (d.lt st.counter (cost st.throughput p) ≡ true))
        ⊎ ((p.len ≢ 0) × (d.lt st.counter (cost st.throughput p) ≡ false))
  next_packet st p = elim (Bool-cases (p.len == 0)) [
    | inl z ↦ inl (inl (ground arith))
    | inr nz ↦ elim (Bool-cases (d.lt st.counter (cost st.throughput p))) [
      | inl y ↦ inl (inr y)
      | inr n ↦ inr (λ e. ground arith, n)
    ]
  ]

  -- With more fuel than packets the second loop of `Dequeue` ends, and it has sent the longest run of
  -- packets at the front of the queue that the counter covers one by one.
  pub drain_lem :
      (n : ℕ) (st : Status W) (size : ℕ) (ps pkts : List Packet)
      → length ps < n
      → (r : Drained W) × (sent : List Packet) × (drain n st (of_packets size ps) pkts ≡ ok r)
        × (r.pkts ≡ pkts ++ sent)
        × DrainSpec st (of_packets size ps) sent r
  drain_lem zero st size ps pkts h = absurd (omega arith)
  drain_lem (suc n) st size [] pkts h = (
    stopped st (of_packets size []) pkts,
    [],
    drain_stop n st size [] pkts tt,
    sym (append-nil pkts),
    stopped-DrainSpec st (of_packets size []) pkts tt,
  )
  drain_lem (suc n) st size (p ∷ ps) pkts h = elim (next_packet st p) [
    | inl stop ↦ (
      stopped st (of_packets size (p ∷ ps)) pkts,
      [],
      drain_stop n st size (p ∷ ps) pkts stop,
      sym (append-nil pkts),
      stopped-DrainSpec st (of_packets size (p ∷ ps)) pkts stop,
    )
    | inr (nz, t) ↦
        let (r, sent, run, all, spec) =
          drain_lem n (paid st p) size ps (pkts ++ p ∷ []) (omega arith) in
        (
          r,
          p ∷ sent,
          drain_send n st size p ps pkts nz t ∙ run,
          all ∙ append_assoc pkts (p ∷ []) sent,
          sent-DrainSpec st size p ps sent r t spec,
        )
  ]
