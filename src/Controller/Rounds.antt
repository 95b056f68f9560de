-- ===== src/Controller/Rounds.antt =====
-- What one turn of `ComputeRoutes` does to the schedulers.
use wspace_controller.Prelude.{
  cons_cases, ℕ, ◌≡◌, refl, ap, subst, ◌∙◌, true, ◌||◌, [], ◌∷◌, some, inl, inr, Bool-cases,
}
use mathlib.Core.Option.{some-injective}
use wspace_controller.Prelude.Result.{ok}
use wspace_controller.Map.{Map, find, has, get_or, ◌=?◌}
use wspace_controller.Map.Laws.{has-find, has_of_find, HasUniqueKeys}
use wspace_controller.Map.Every.{IsEvery}
use wspace_controller.NodeId.{NodeId, node_id_eq}
use wspace_controller.Double.{Double}
use wspace_controller.Scheduler.{PktScheduler}
use wspace_controller.Scheduler.Queue.{clear}
use wspace_controller.Scheduler.Quantum.{compute_quantum}
use wspace_controller.Scheduler.Quantum.Correct.{QuantumSpec, compute_quantum_lem}
use wspace_controller.Scheduler.Quantum.Fill.{or_new}
use wspace_controller.Scheduler.History.{computes, step, step-Inv}
use wspace_controller.Routing.{Table}
use wspace_controller.Controller.{compute_all}
use wspace_controller.Controller.Wiring.{IsReady}
use wspace_controller.Controller.Split.{HasUniqueRows}

module _ {W : Type 0} ⦃d : Double W⦄ where
  -- A scheduler with no throughputs stays as it is; else its quanta are computed.
  abbrev pub IsComputed : Map NodeId W → PktScheduler W → PktScheduler W → Type 0
  IsComputed [] s s' = s' ≡ s
  IsComputed (p ∷ ps) s s' = QuantumSpec (p ∷ ps) s s'

  computed-queues :
      (ts : Map NodeId W) (s s' : PktScheduler W)
      → QuantumSpec ts s s'
      → (id : NodeId) → has id s.queues ≡ true
      → has id s'.queues ≡ true
  computed-queues ts s s' spec id h =
      let (q, found) = has-find id s.queues h in
      elim (Bool-cases (has id ts)) [
        | inl y ↦
            has_of_find id s'.queues (or_new s.pkt_queue_size (find id s.queues))
              (spec.queues id ∙ rw y refl)
        | inr n ↦ has_of_find id s'.queues (clear q) (spec.queues id ∙ rw (n, found) refl)
      ]

  computed-IsReady :
      (clients : Map NodeId ℕ) (ts : Map NodeId W) (s : PktScheduler W)
      → HasUniqueKeys ts
      → IsReady clients s
      → (s' : PktScheduler W) × (compute_quantum ts s ≡ ok s')
        × QuantumSpec ts s s'
        × IsReady clients s'
  unfolding step
  computed-IsReady clients ts s u r =
      let (s', run, spec) = compute_quantum_lem ts s r.known u in
      (
        s',
        run,
        spec,
        record {
          inv = step-Inv s s' (computes ts) u r.inv run;
          queues = λ id h. computed-queues ts s s' spec id (r.queues id h);
          known = rw spec.mode r.known;
        },
      )

  compute_all-skip :
      (split : Table W) (k : NodeId) (s : PktScheduler W) (m m' : Map NodeId (PktScheduler W))
      → get_or [] k split ≡ []
      → compute_all split m ≡ ok m'
      → compute_all split ((k, s) ∷ m) ≡ ok ((k, s) ∷ m')
  unfolding compute_all
  compute_all-skip split k s m m' e run = rw (compute_all, run, e) refl

  compute_all-share :
      (split : Table W) (k : NodeId) (s s' : PktScheduler W) (m m' : Map NodeId (PktScheduler W))
      (p : NodeId × W) (ps : Map NodeId W)
      → get_or [] k split ≡ p ∷ ps
      → compute_quantum (p ∷ ps) s ≡ ok s'
      → compute_all split m ≡ ok m'
      → compute_all split ((k, s) ∷ m) ≡ ok ((k, s') ∷ m')
  unfolding compute_all
  compute_all-share split k s s' m m' p ps e one run = rw (compute_all, run, e, one) refl

  -- Each scheduler after the turn is the one before it, with its own throughputs computed.
  abbrev pub AreComputed :
      Table W → Map NodeId (PktScheduler W) → Map NodeId (PktScheduler W) → Type 0
  AreComputed split m m' =
      (k : NodeId) (s : PktScheduler W)
      → find k m ≡ some s
      → (s' : PktScheduler W) × (find k m' ≡ some s') × IsComputed (get_or [] k split) s s'

  AreComputed-cons :
      (split : Table W) (j : NodeId) (s s' : PktScheduler W) (m m' : Map NodeId (PktScheduler W))
      → IsComputed (get_or [] j split) s s'
      → AreComputed split m m'
      → AreComputed split ((j, s) ∷ m) ((j, s') ∷ m')
  unfolding find
  AreComputed-cons split j s s' m m' one all k t f = elim (Bool-cases (j =? k)) [
    | inl y ↦
        let same : s ≡ t = some-injective _ _ (rw y at f) in
        let jk : j ≡ k = (node_id_eq.test_iff j k).0 y in
        (
          s',
          rw y refl,
          subst (λ x. IsComputed (get_or [] k split) x s') same
              (subst (λ i. IsComputed (get_or [] i split) s s') jk one),
        )
    | inr n ↦ let (t', g, r) = all k t (rw n at f) in (t', rw n g, r)
  ]

  one-IsReady :
      (clients : Map NodeId ℕ) (split : Table W) (j : NodeId) (s : PktScheduler W)
      (m m' : Map NodeId (PktScheduler W))
      → HasUniqueKeys (get_or [] j split)
      → IsReady clients s
      → compute_all split m ≡ ok m'
      → (s' : PktScheduler W) × (compute_all split ((j, s) ∷ m) ≡ ok ((j, s') ∷ m'))
        × IsComputed (get_or [] j split) s s'
        × IsReady clients s'
  one-IsReady clients split j s m m' u r run = elim (cons_cases (get_or [] j split)) [
    | inl e ↦ (s, compute_all-skip split j s m m' e run, rw e refl, r)
    | inr (p, ps, e) ↦
        let (s', one, spec, r') = computed-IsReady clients (p ∷ ps) s (subst HasUniqueKeys e u) r in
        (s', compute_all-share split j s s' m m' p ps e one run, rw e spec, r')
  ]

  -- The loop over the schedulers ends without a fault where each of them is ready. Each one that has
  -- throughputs gets its quanta, the others stay as they are, and all are ready again.
  pub compute_all_lem :
      (clients : Map NodeId ℕ) (split : Table W) (m : Map NodeId (PktScheduler W))
      → HasUniqueRows split
      → IsEvery (IsReady clients) m
      → (m' : Map NodeId (PktScheduler W)) × (compute_all split m ≡ ok m')
        × AreComputed split m m'
        × IsEvery (IsReady clients) m'
        × ((k : NodeId) → has k m' ≡ has k m)
  unfolding compute_all find has
  compute_all_lem clients split [] u a = ([], refl, λ k s f. cc, tt, λ k. refl)
  compute_all_lem clients split ((j, s) ∷ m) u a =
      let (m', run, all, r, same) = compute_all_lem clients split m u a.1 in
      let (s', runs, one, r') = one-IsReady clients split j s m m' (u j) a.0 run in
      (
        (j, s') ∷ m',
        runs,
        AreComputed-cons split j s s' m m' one all,
        (r', r),
        λ k. ap (λ b. (j =? k) || b) (same k),
      )
