-- ===== src/Scheduler/History.antt =====
-- Histories of a scheduler: any sequence of its three calls, by whichever threads make them. Each
-- call is one step here.
use mathlib.Core.Option
use mathlib.Core.Option.{some-injective}
use mathlib.Core.Bool.{true≢false}
use wspace_controller.Prelude.{
  ℕ, ◌<◌, ◌≡◌, refl, sym, ap, ◌∙◌, subst, true, List, [], Option, none, some, arith, Bool-cases,
  Option-cases, inl, inr,
}
use wspace_controller.Prelude.Result.{Result, ok, ◌>>=◌, >>=-eq-ok, ok-injective}
use wspace_controller.Map.{Map, find, has}
use wspace_controller.Map.Laws.{has-find, has_of_find, has_of_none, find-none, HasUniqueKeys}
use wspace_controller.NodeId.{NodeId, node_id_eq}
use wspace_controller.Double.{Double}
use wspace_controller.Scheduler.Queue.{Packet, PktQueue, clear, new_queue}
use wspace_controller.Scheduler.Queue
use wspace_controller.Scheduler.Queue.Laws.{IsValid}
use wspace_controller.Scheduler.Service.{Inv, NoneStalled}
use wspace_controller.Scheduler.Fairness.{absent}
use wspace_controller.Scheduler.Calls.{DequeueSpec, dequeue_lem}
use wspace_controller.Scheduler.Admission.{enqueue_lem}
use wspace_controller.Scheduler.Quantum.{compute_quantum, share, Stats, take_throughputs}
use wspace_controller.Scheduler.Quantum.Fill.{or_new, take_throughputs-rest}
use wspace_controller.Scheduler.Quantum.Correct.{QuantumSpec, IsKnown, compute_quantum_lem}
use wspace_controller.Scheduler.{
  FairnessMode, equal_time, equal_throughput, proportional_throughput, unknown_mode, PktScheduler,
  Dequeued, waits, serves, enqueue, dequeue,
}

pub data Call (W : Type 0) : Type 0 where
  enqueues : List ℕ → ℕ → NodeId → Call W
  dequeues : Call W
  computes : Map NodeId W → Call W

module _ {W : Type 0} where
  abbrev pub state_after : Dequeued W → PktScheduler W
  state_after (waits s) = s
  state_after (serves id pkts s) = s

  -- The throughputs of a `ComputeQuantum` are a map.
  abbrev pub IsMap : Call W → Type 0
  IsMap (computes ts) = HasUniqueKeys ts
  IsMap _ = Unit

  -- No client is new to the scheduler.
  abbrev pub AddsNobody : PktScheduler W → Call W → Type 0
  AddsNobody s (computes ts) = (k : NodeId) → has k ts ≡ true → has k s.stats ≡ true
  AddsNobody s _ = Unit

or_new-IsValid :
    (size : ℕ) (o : Option PktQueue)
    → ((q : PktQueue) → o ≡ some q → IsValid q)
    → IsValid (or_new size o)
unfolding new_queue
or_new-IsValid size none v = omega arith
or_new-IsValid size (some q) v = v q refl

clear-IsValid : (o : Option PktQueue) (q : PktQueue) → Option.map clear o ≡ some q → IsValid q
unfolding clear
clear-IsValid none q e = cc
clear-IsValid (some p) q e = subst IsValid (some-injective _ _ e) (omega arith)

module _ {W : Type 0} ⦃d : Double W⦄ where
  unfoldable pub step : PktScheduler W → Call W → Result (PktScheduler W)
  step s (enqueues pkt len id) = enqueue pkt len id s
  step s dequeues = dequeue s >>= λ r. ok (state_after r)
  step s (computes ts) = compute_quantum ts s

  pub enqueue_needs :
      (pkt : List ℕ) (len : ℕ) (id : NodeId) (s s' : PktScheduler W)
      → enqueue pkt len id s ≡ ok s'
      → (q : PktQueue) × (find id s.queues ≡ some q) × (0 < len)
  unfolding enqueue Queue.enqueue
  enqueue_needs pkt len id s s' e = elim (Option-cases (find id s.queues)) [
    | inl n ↦ cc ((rw (n, enqueue) at e))
    | inr (q, f) ↦ (q, f, let e' = rw (f, enqueue) at e in ground arith)
  ]

  share-IsKnown :
      (m : FairnessMode) (round : ℕ) (cs : List NodeId) (stats stats' : Stats W)
      → share m round cs stats ≡ ok stats'
      → IsKnown m
  unfolding share
  share-IsKnown equal_time round cs stats stats' e = tt
  share-IsKnown equal_throughput round cs stats stats' e = tt
  share-IsKnown proportional_throughput round cs stats stats' e = tt
  share-IsKnown (unknown_mode m) round cs stats stats' e = cc

  compute_needs :
      (ts : Map NodeId W) (s s' : PktScheduler W)
      → compute_quantum ts s ≡ ok s'
      → IsKnown s.fairness_mode
  unfolding compute_quantum
  compute_needs ts s s' e =
      let s1 = take_throughputs ts (record s { client_ids = []; stats = [] }) in
      let (stats, shared, _) =
        >>=-eq-ok (share s1.fairness_mode s1.round_interval s1.client_ids s1.stats) _ e in
      subst IsKnown ((take_throughputs-rest ts (record s { client_ids = []; stats = [] })).2)
        (share-IsKnown _ _ _ _ stats shared)

  computed_known :
      (ts : Map NodeId W) (s s' : PktScheduler W)
      → QuantumSpec ts s s'
      → (k : NodeId) → has k s'.stats ≡ true
      → has k ts ≡ true
  computed_known ts s s' spec k h = elim (Bool-cases (has k ts)) [
    | inl y ↦ y
    | inr n ↦
        let gone = has_of_none k s'.stats (spec.no_entry k (find-none k ts n)) in
        absurd (true≢false (sym h ∙ gone))
  ]

  computed-Inv : (ts : Map NodeId W) (s s' : PktScheduler W) → Inv s → QuantumSpec ts s s' → Inv s'
  computed-Inv ts s s' inv spec = record {
    synced = rw (spec.active_list) inv.synced;
    valid = λ k q f.
        let found = sym (spec.queues k) ∙ f in
        elim (Bool-cases (has k ts)) [
          | inl y ↦
              subst IsValid (some-injective _ _ (rw y at found))
                (or_new-IsValid s.pkt_queue_size (find k s.queues) (inv.valid k))
          | inr n ↦ clear-IsValid (find k s.queues) q (rw n at found)
        ];
    have_queues = λ k h.
        let in_ts : has k ts ≡ true = computed_known ts s s' spec k h in
        has_of_find k s'.queues (or_new s.pkt_queue_size (find k s.queues))
          (spec.queues k ∙ rw in_ts);
  }

  pub DequeueSpec-Inv :
      (s : PktScheduler W) (r : Dequeued W) → DequeueSpec s r → Inv (state_after r)
  DequeueSpec-Inv s (waits s') (_, _, _, _, _, inv) = inv
  DequeueSpec-Inv s (serves id pkts s') (_, _, _, _, _, _, inv, _) = inv

  -- A call that returns keeps the invariant; the throughputs of a `ComputeQuantum` have one entry a
  -- client.
  pub step-Inv : (s s' : PktScheduler W) (c : Call W) → IsMap c → Inv s → step s c ≡ ok s' → Inv s'
  unfolding step
  step-Inv s s' (enqueues pkt len id) m inv e =
      let (q, f, pos_len) = enqueue_needs pkt len id s s' e in
      let (s2, run, spec, inv2, ns) = enqueue_lem pkt len id s q inv f pos_len in
      subst Inv (ok-injective s2 s' (sym run ∙ e)) inv2
  step-Inv s s' dequeues m inv e =
      let (r, run, spec) = dequeue_lem s inv in
      subst Inv (ok-injective (state_after r) s' (rw run at e)) (DequeueSpec-Inv s r spec)
  step-Inv s s' (computes ts) m inv e =
      let (s2, run, spec) = compute_quantum_lem ts s (compute_needs ts s s' e) m in
      subst Inv (ok-injective s2 s' (sym run ∙ e)) (computed-Inv ts s s2 inv spec)

  DequeueSpec-NoneStalled :
      (s : PktScheduler W) (r : Dequeued W)
      → DequeueSpec s r
      → NoneStalled s
      → NoneStalled (state_after r)
  DequeueSpec-NoneStalled s (waits s') (gone, _, same_q, same_st, _, _) ns k q known found full =
      let known' : has k s.stats ≡ true = rw (← same_st) known in
      let active = ns k q known' (rw (← same_q) found) full in
      absurd (true≢false (sym known' ∙ absent s.stats k s.active_list.ids gone active))
  DequeueSpec-NoneStalled s (serves id pkts s') (_, _, _, _, _, _, _, keeps) ns k q known found
        full =
      keeps ns k q known found full

  -- A `ComputeQuantum` that brings in nobody leaves the queues of its clients, and who waits.
  pub computed_old :
      (ts : Map NodeId W) (s s' : PktScheduler W)
      → HasUniqueKeys ts
      → AddsNobody s (computes ts)
      → Inv s
      → compute_quantum ts s ≡ ok s'
      → (s'.active_list ≡ s.active_list)
        × ((k : NodeId) (q : PktQueue)
            → has k s'.stats ≡ true
            → find k s'.queues ≡ some q
            → (has k s.stats ≡ true) × (find k s.queues ≡ some q))
  computed_old ts s s' m nobody inv e =
      let (s2, run, spec2) = compute_quantum_lem ts s (compute_needs ts s s' e) m in
      let spec = subst (QuantumSpec ts s) (ok-injective s2 s' (sym run ∙ e)) spec2 in
      (
        spec.active_list,
        λ k q known found.
            let in_ts = computed_known ts s s' spec k known in
            let was_known = nobody k in_ts in
            let (p, old) = has-find k s.queues (inv.have_queues k was_known) in
            let same : p ≡ q = some-injective _ _ (
              sym (ap (λ o. some (or_new s.pkt_queue_size o)) old)
              ∙ (sym (spec.queues k ∙ rw in_ts) ∙ found)) in
            (was_known, old ∙ ap some same),
      )

  -- From a state with the invariant, no call that returns leaves a client behind, but for a
  -- `ComputeQuantum` that brings in a new client: if each client that has a status and a packet waited
  -- for service, each one does so after the call.
  pub step-NoneStalled :
      (s s' : PktScheduler W) (c : Call W)
      → IsMap c
      → AddsNobody s c
      → Inv s
      → NoneStalled s
      → step s c ≡ ok s'
      → NoneStalled s'
  unfolding step
  step-NoneStalled s s' (enqueues pkt len id) m a inv ns e =
      let (q, f, pos_len) = enqueue_needs pkt len id s s' e in
      let (s2, run, spec, inv2, keeps) = enqueue_lem pkt len id s q inv f pos_len in
      subst NoneStalled (ok-injective s2 s' (sym run ∙ e)) (keeps ns)
  step-NoneStalled s s' dequeues m a inv ns e =
      let (r, run, spec) = dequeue_lem s inv in
      subst NoneStalled (ok-injective (state_after r) s' (rw run at e))
        (DequeueSpec-NoneStalled s r spec ns)
  step-NoneStalled s s' (computes ts) m a inv ns e =
      let (active, old) = computed_old ts s s' m a inv e in
      λ k q known found full.
        rw active (ns k q ((old k q known found).0) ((old k q known found).1) full)
