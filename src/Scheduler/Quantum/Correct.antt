-- ===== src/Scheduler/Quantum/Correct.antt =====
-- `ComputeQuantum` as a whole.
use mathlib.Core.List.{foldl}
use mathlib.Core.Option
use wspace_controller.Prelude.{
  ℕ, ◌≡◌, refl, sym, ap, ◌∙◌, true, false, [], none, some, if◌then◌else◌, length, map, Bool-cases,
  inl, inr, length-map,
}
use wspace_controller.Map.{Map, find, has, has_elem, keys}
use wspace_controller.Map.Laws.{
  has_of_find, has_of_none, has-eq-has_elem, get_or-find, HasUniqueKeys,
}
use wspace_controller.NodeId.{NodeId, node_id_eq}
use wspace_controller.Double.{Double, of_nat}
use wspace_controller.Scheduler.Queue.{clear}
use wspace_controller.Scheduler.Quantum.Laws.{
  Agrees, status_of, values, assign, find-assign, share_time-assign, share_inversely-assign,
  share_proportionally-assign, total_throughput-foldl, proportion-map, add_up-foldl, inverse-values,
}
use wspace_controller.Scheduler.Quantum.Fill.{
  fresh, or_new, take_throughputs-client_ids, take_throughputs-rest, take_throughputs-fresh,
  take_throughputs-Agrees, take_throughputs-queues, clear_others-queues,
}
use wspace_controller.Scheduler.{
  Status, PktScheduler, no_status, FairnessMode, equal_time, equal_throughput,
  proportional_throughput, unknown_mode,
}
use wspace_controller.Prelude.Result.{ok}
use wspace_controller.Scheduler.Quantum.{
  Stats, with_quantum, throughput_of, take_throughputs, clear_others, proportion, add_up,
  share_inversely, share, compute_quantum,
}

abbrev pub IsKnown : FairnessMode → Type 0
IsKnown (unknown_mode m) = ⊥
IsKnown _ = Unit

module _ {W : Type 0} ⦃d : Double W⦄ where
  -- The share of the round for a client with throughput `t`, from all the throughputs.
  abbrev pub quota : FairnessMode → ℕ → Map NodeId W → W → W
  quota equal_time round ts t = d.over (of_nat round) (of_nat (length ts))
  quota proportional_throughput round ts t =
      d.times (d.over t (foldl d.plus (of_nat 0) (values ts))) (of_nat round)
  quota equal_throughput round ts t =
      d.times
        (d.over (d.over (of_nat 1) t)
          (foldl d.plus (of_nat 0) (map (d.over (of_nat 1)) (values ts))))
        (of_nat round)
  quota (unknown_mode m) round ts t = t

  share-assign :
      (m : FairnessMode) (round : ℕ) (ts : Map NodeId W) (stats : Stats W)
      → IsKnown m
      → Agrees ts stats
      → share m round (keys ts) stats
        ≡ ok (assign (λ c. quota m round ts (throughput_of stats c)) (keys ts) stats)
  unfolding share
  share-assign equal_time round ts stats known a = ap ok (
      share_time-assign _ (keys ts) stats
      ∙ ap (λ n. assign (λ _. d.over (of_nat round) (of_nat n)) (keys ts) stats)
          (length-map ts (λ p. p.0)))
  share-assign proportional_throughput round ts stats known a = ap ok (
      share_proportionally-assign _ round (keys ts) stats
      ∙ ap
          (λ x.
            assign (λ c. d.times (d.over (throughput_of stats c) x) (of_nat round)) (keys ts) stats)
          (total_throughput-foldl ts stats (of_nat 0) a))
  share-assign equal_throughput round ts stats known a =
      let inverse : NodeId → W = λ c. d.over (of_nat 1) (throughput_of stats c) in
      let sum = add_up (proportion (keys ts) stats) (of_nat 0) in
      let sum_eq : sum ≡ foldl d.plus (of_nat 0) (map (d.over (of_nat 1)) (values ts)) =
        ap (λ xs. add_up xs (of_nat 0)) (proportion-map (keys ts) stats ∙ inverse-values ts stats a)
        ∙ add_up-foldl (map (d.over (of_nat 1)) (values ts)) (of_nat 0) in
      ap ok (
        ap (λ xs. share_inversely sum round (keys ts) xs stats) (proportion-map (keys ts) stats)
        ∙ share_inversely-assign sum round inverse (keys ts) stats
        ∙ ap (λ x. assign (λ c. d.times (d.over (inverse c) x) (of_nat round)) (keys ts) stats)
            sum_eq)
  share-assign (unknown_mode m) round ts stats known a = absurd known

  -- What `ComputeQuantum` leaves: the clients are those of the new throughputs, each with its share of
  -- the round and an empty counter; they keep their queues, and all others' queues are cleared.
  pub record QuantumSpec (ts : Map NodeId W) (s s' : PktScheduler W) : Type 0 where
    pub client_ids : s'.client_ids ≡ keys ts
    pub entry :
        (c : NodeId) (t : W)
        → find c ts ≡ some t
        → find c s'.stats
          ≡ some (record {
            throughput = t;
            quantum = quota s.fairness_mode s.round_interval ts t;
            counter = of_nat 0;
          })
    pub no_entry : (c : NodeId) → find c ts ≡ none → find c s'.stats ≡ none
    pub queues :
        (c : NodeId)
        → find c s'.queues ≡ (
            if has c ts
            then some (or_new s.pkt_queue_size (find c s.queues))
            else Option.map clear (find c s.queues))
    pub active_list : s'.active_list ≡ s.active_list
    pub mode : s'.fairness_mode ≡ s.fairness_mode
    pub round : s'.round_interval ≡ s.round_interval

  emptied : PktScheduler W → PktScheduler W
  emptied s = record s { client_ids = []; stats = [] }

  quanta : Map NodeId W → PktScheduler W → Stats W
  quanta ts s =
      let s1 = take_throughputs ts (emptied s) in
      assign (λ c. quota s.fairness_mode s.round_interval ts (throughput_of s1.stats c)) (keys ts)
        s1.stats

  find-quanta-some :
      (ts : Map NodeId W) (s : PktScheduler W) (c : NodeId) (t : W)
      → HasUniqueKeys ts
      → find c ts ≡ some t
      → find c (quanta ts s)
        ≡ some (record {
          throughput = t;
          quantum = quota s.fairness_mode s.round_interval ts t;
          counter = of_nat 0;
        })
  unfolding quanta emptied
  find-quanta-some ts s c t u h =
      let s1 = take_throughputs ts (emptied s) in
      let m = s.fairness_mode in
      let n = s.round_interval in
      let listed : has_elem c (keys ts) ≡ true =
        sym (has-eq-has_elem c ts) ∙ has_of_find c ts t h in
      let started : status_of c s1.stats ≡ fresh t =
        get_or-find no_status c s1.stats (fresh t)
          ((take_throughputs-fresh ts (emptied s) c u refl).1 t h) in
      find-assign (λ k. quota m n ts (throughput_of s1.stats k)) c (keys ts) s1.stats
      ∙ rw listed
          (ap (λ (st : Status W). some (with_quantum (quota m n ts st.throughput) st)) started)

  find-quanta-none :
      (ts : Map NodeId W) (s : PktScheduler W) (c : NodeId)
      → HasUniqueKeys ts
      → find c ts ≡ none
      → find c (quanta ts s) ≡ none
  unfolding quanta emptied
  find-quanta-none ts s c u h =
      let s1 = take_throughputs ts (emptied s) in
      let unlisted : has_elem c (keys ts) ≡ false =
        sym (has-eq-has_elem c ts) ∙ has_of_none c ts h in
      find-assign _ c (keys ts) s1.stats
      ∙ rw unlisted ((take_throughputs-fresh ts (emptied s) c u refl).0 h)

  computed : Map NodeId W → PktScheduler W → PktScheduler W
  computed ts s =
      let s1 = take_throughputs ts (emptied s) in
      record s1 { queues = clear_others ts s1.queues; stats = quanta ts s }

  computed-QuantumSpec :
      (ts : Map NodeId W) (s : PktScheduler W) → HasUniqueKeys ts → QuantumSpec ts s (computed ts s)
  unfolding computed quanta emptied
  computed-QuantumSpec ts s u =
      let s1 = take_throughputs ts (emptied s) in
      let (active, round, mode, size) = take_throughputs-rest ts (emptied s) in
      record {
        client_ids = take_throughputs-client_ids ts (emptied s);
        entry = λ c t h. find-quanta-some ts s c t u h;
        no_entry = λ c h. find-quanta-none ts s c u h;
        queues = λ c.
            clear_others-queues ts s1.queues c
            ∙ rw (take_throughputs-queues ts (emptied s) c)
                (elim (Bool-cases (has c ts)) [ inl y ↦ rw y | inr n ↦ rw n ]);
        active_list = active;
        mode = mode;
        round = round;
      }

  share_runs :
      (ts : Map NodeId W) (s : PktScheduler W)
      → IsKnown s.fairness_mode
      → HasUniqueKeys ts
      → let s1 = take_throughputs ts (emptied s) in
        share s1.fairness_mode s1.round_interval s1.client_ids s1.stats ≡ ok (quanta ts s)
  unfolding quanta emptied
  share_runs ts s known u =
      let (active, round, mode, size) = take_throughputs-rest ts (emptied s) in
      rw (mode, round, take_throughputs-client_ids ts (emptied s))
        (share-assign s.fairness_mode s.round_interval ts _ known
          (take_throughputs-Agrees ts (emptied s) u refl))

  compute_quantum_runs :
      (ts : Map NodeId W) (s : PktScheduler W)
      → IsKnown s.fairness_mode
      → HasUniqueKeys ts
      → compute_quantum ts s ≡ ok (computed ts s)
  unfolding compute_quantum computed emptied
  compute_quantum_runs ts s known u = rw (share_runs ts s known u, compute_quantum)

  -- In each of the three modes, for throughputs with one entry a client, `ComputeQuantum` ends without
  -- a fault. Its clients are those of the throughputs; each gets its share of the round, and a counter
  -- of 0: the same for all, or in proportion to its throughput, or to the inverse of its throughput.
  -- Their queues stay, with an empty one for who had none; all others' queues are cleared. The
  -- active list stays as it was. A throughput is kept as it is given, also below the minimum that the
  -- constructor takes.
  pub compute_quantum_lem :
      (ts : Map NodeId W) (s : PktScheduler W)
      → IsKnown s.fairness_mode
      → HasUniqueKeys ts
      → (s' : PktScheduler W) × (compute_quantum ts s ≡ ok s') × QuantumSpec ts s s'
  compute_quantum_lem ts s known u =
      (computed ts s, compute_quantum_runs ts s known u, computed-QuantumSpec ts s u)
