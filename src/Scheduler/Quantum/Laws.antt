-- ===== src/Scheduler/Quantum/Laws.antt =====
-- The loops of `ComputeQuantum`, each against a description of its result entry by entry.
use mathlib.Core.Path.{fun_ext}
use mathlib.Core.List.{foldl}
use wspace_controller.Prelude.{
  ℕ, ◌≡◌, refl, ap, ◌∙◌, List, [], ◌∷◌, some, if◌then◌else◌, map, arith, Bool-cases, inl, inr,
}
use wspace_controller.Map.{Map, find, has_elem, keys, get_or, update, ◌=?◌}
use wspace_controller.Map.Laws.{find-update, get_or-update}
use wspace_controller.NodeId.{NodeId, node_id_eq}
use wspace_controller.Double.{Double, of_nat}
use wspace_controller.Scheduler.{Status, no_status}
use wspace_controller.Scheduler.Quantum.{
  Stats, with_quantum, throughput_of, share_time, total_throughput, share_proportionally,
  proportion, add_up, share_inversely,
}

module _ {W : Type 0} ⦃d : Double W⦄ where
  abbrev pub status_of : NodeId → Stats W → Status W
  status_of c stats = get_or no_status c stats

  -- A loop that gives each client the quantum `g c`.
  pub assign : (NodeId → W) → List NodeId → Stats W → Stats W
  assign g [] stats = stats
  assign g (c ∷ cs) stats = assign g cs (update no_status c (with_quantum (g c)) stats)

  pub status-update :
      (c k : NodeId) (f : Status W → Status W) (stats : Stats W)
      → status_of c (update no_status k f stats)
        ≡ (if k =? c then f (status_of c stats) else status_of c stats)
  status-update c k f stats = get_or-update no_status c k f stats

  pub find-assign :
      (g : NodeId → W) (c : NodeId) (cs : List NodeId) (stats : Stats W)
      → find c (assign g cs stats)
        ≡ (if has_elem c cs then some (with_quantum (g c) (status_of c stats)) else find c stats)
  unfolding assign
  find-assign g c [] stats = refl
  find-assign g c (k ∷ cs) stats =
      let stats1 = update no_status k (with_quantum (g k)) stats in
      ground (
        arith,
        find-assign g c cs stats1,
        status-update c k (with_quantum (g k)) stats,
        find-update no_status c k (with_quantum (g k)) stats,
        node_id_eq.test_iff k c,
      )

  pub share_time-assign :
      (x : W) (cs : List NodeId) (stats : Stats W)
      → share_time x cs stats ≡ assign (λ _. x) cs stats
  unfolding share_time assign
  share_time-assign x [] stats = refl
  share_time-assign x (c ∷ cs) stats = share_time-assign x cs _

  pub share_inversely-assign :
      (sum : W) (round : ℕ) (g : NodeId → W) (cs : List NodeId) (stats : Stats W)
      → share_inversely sum round cs (map g cs) stats
        ≡ assign (λ c. d.times (d.over (g c) sum) (of_nat round)) cs stats
  unfolding share_inversely assign
  share_inversely-assign sum round g [] stats = refl
  share_inversely-assign sum round g (c ∷ cs) stats = share_inversely-assign sum round g cs _

  throughput-with_quantum :
      (k : NodeId) (x : W) (stats : Stats W)
      → throughput_of (update no_status k (with_quantum x) stats) ≡ throughput_of stats
  throughput-with_quantum k x stats = fun_ext λ c.
      ap (λ (st : Status W). st.throughput) (status-update c k (with_quantum x) stats)
      ∙ elim (Bool-cases (k =? c)) [ inl y ↦ rw y | inr n ↦ rw n ]

  pub share_proportionally-assign :
      (total : W) (round : ℕ) (cs : List NodeId) (stats : Stats W)
      → share_proportionally total round cs stats
        ≡ assign (λ c. d.times (d.over (throughput_of stats c) total) (of_nat round)) cs stats
  unfolding share_proportionally assign
  share_proportionally-assign total round [] stats = refl
  share_proportionally-assign total round (c ∷ cs) stats =
      let stats1 =
        update no_status c
          (with_quantum (d.times (d.over (throughput_of stats c) total) (of_nat round))) stats in
      share_proportionally-assign total round cs stats1
      ∙ ap (λ t. assign (λ k. d.times (d.over (t k) total) (of_nat round)) cs stats1)
          (throughput-with_quantum c _ stats)

  -- The throughputs of the clients, as the second argument has them.
  abbrev pub Agrees : Map NodeId W → Stats W → Type 0
  Agrees [] stats = Unit
  Agrees ((c, t) ∷ ts) stats = (throughput_of stats c ≡ t) × Agrees ts stats

  abbrev pub values : Map NodeId W → List W
  values = map λ p. p.1

  pub total_throughput-foldl :
      (ts : Map NodeId W) (stats : Stats W) (sum : W)
      → Agrees ts stats
      → total_throughput (keys ts) stats sum ≡ foldl d.plus sum (values ts)
  unfolding total_throughput
  total_throughput-foldl [] stats sum a = refl
  total_throughput-foldl ((c, t) ∷ ts) stats sum a =
      ap (λ x. total_throughput (keys ts) stats (d.plus sum x)) a.0
      ∙ total_throughput-foldl ts stats (d.plus sum t) a.1

  pub proportion-map :
      (cs : List NodeId) (stats : Stats W)
      → proportion cs stats ≡ map (λ c. d.over (of_nat 1) (throughput_of stats c)) cs
  unfolding proportion
  proportion-map [] stats = refl
  proportion-map (c ∷ cs) stats = rw (proportion-map cs stats)

  pub add_up-foldl : (xs : List W) (sum : W) → add_up xs sum ≡ foldl d.plus sum xs
  unfolding add_up
  add_up-foldl [] sum = refl
  add_up-foldl (x ∷ xs) sum = add_up-foldl xs (d.plus sum x)

  pub inverse-values :
      (ts : Map NodeId W) (stats : Stats W)
      → Agrees ts stats
      → map (λ c. d.over (of_nat 1) (throughput_of stats c)) (keys ts)
        ≡ map (d.over (of_nat 1)) (values ts)
  inverse-values [] stats a = refl
  inverse-values ((c, t) ∷ ts) stats a = rw (a.0, inverse-values ts stats a.1)
