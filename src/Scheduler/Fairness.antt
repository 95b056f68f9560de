-- ===== src/Scheduler/Fairness.antt =====
-- What the service of a client does to the invariant, and to the order in which clients wait.
use wspace_controller.Prelude.{
  ◌≡◌, refl, sym, ap, ◌∙◌, subst, true, false, List, [], ◌∷◌, ◌++◌, some, arith, length, Bool-cases,
  inl, inr, ◌⊎◌, ◌≢◌, if◌then◌else◌, ◌||◌,
}
use mathlib.Core.Option.{some-injective}
use wspace_controller.Map.{Map, find, has, has_elem, ◌=?◌}
use wspace_controller.Map.Laws.{find-put, has-put, has_of_find}
use wspace_controller.NodeId.{NodeId, node_id_eq}
use wspace_controller.Double.{Double}
use wspace_controller.Scheduler.Queue.{Packet, PktQueue}
use wspace_controller.Scheduler.Queue.Laws.{
  IsValid, HaveLength, HaveLength-suffix, length-suffix-le,
}
use wspace_controller.Scheduler.Active
use wspace_controller.Scheduler.Active.{ActiveList}
use wspace_controller.Scheduler.Active.Laws.{IsSynced, append_lem, has_elem-append}
use wspace_controller.Scheduler.Pick.{AreAbsent}
use wspace_controller.Scheduler.Service.{Inv, NoneStalled, ServeSpec}
use wspace_controller.Scheduler.{Status, PktScheduler}

pub list_cases {ℓ} : {A : Type ℓ} (xs : List A) → (xs ≡ []) ⊎ (xs ≢ [])
list_cases [] = inl refl
list_cases (x ∷ xs) = inr (λ e. cc)

-- After `Append` the list has what it had, and the new id.
pub has_elem-append_active :
    (k id : NodeId) (l : ActiveList)
    → IsSynced l
    → has_elem k (Active.append id l).ids ≡ ((id =? k) || has_elem k l.ids)
has_elem-append_active k id l v =
    rw ((append_lem id l v).1) (elim (Bool-cases (has_elem id l.ids)) [
      | inl old ↦ rw old (ground (arith, old, node_id_eq.test_iff id k))
      | inr new ↦ rw new (ground (arith, has_elem-append k l.ids (id ∷ [])))
    ])

suffix-IsValid :
    (q q' : PktQueue) (pkts : List Packet)
    → IsValid q
    → q.packets ≡ pkts ++ q'.packets
    → q'.max_size ≡ q.max_size
    → IsValid q'
suffix-IsValid q q' pkts v e m = record {
  bounded = omega (arith, v.bounded, ap length e, length-suffix-le pkts q'.packets);
  lengths = HaveLength-suffix pkts q'.packets (subst HaveLength e v.lengths);
}

module _ {W : Type 0} where
  pub absent :
      (stats : Map NodeId (Status W)) (k : NodeId) (ks : List NodeId)
      → AreAbsent stats ks
      → has_elem k ks ≡ true
      → has k stats ≡ false
  absent stats k [] a h = cc
  absent stats k (j ∷ ks) a h = ground (arith, node_id_eq.test_iff j k, absent stats k ks a.1)

module _ {W : Type 0} ⦃d : Double W⦄ where
  module _ (s : PktScheduler W) (id : NodeId) (pkts : List Packet) (s' : PktScheduler W)
      (inv : Inv s) (spec : ServeSpec s id pkts s') where
    serve-IsValid : (k : NodeId) (p : PktQueue) → find k s'.queues ≡ some p → IsValid p
    serve-IsValid k p e =
        let found : (if id =? k then some spec.q' else find k s.queues) ≡ some p =
          sym (find-put k id spec.q' s.queues) ∙ (rw spec.queues at e) in
        elim (Bool-cases (id =? k)) [
          | inl y ↦ subst IsValid (some-injective _ _ (rw y at found)) (
              suffix-IsValid spec.q spec.q' pkts (inv.valid id spec.q spec.had) spec.split
                spec.same_size)
          | inr n ↦ inv.valid k p (rw n at found)
        ]

    list_end : (spec.q'.packets ≡ []) ⊎ (spec.q'.packets ≢ [])
    list_end = list_cases spec.q'.packets

    serve-IsSynced : IsSynced s'.active_list
    serve-IsSynced = elim list_end [
      | inl e ↦ rw ((spec.emptied e).1) inv.synced
      | inr n ↦ rw ((spec.carried n).1) ((append_lem id s.active_list inv.synced).0)
    ]

    serve-has_stats : (k : NodeId) → has k s'.stats ≡ has k s.stats
    serve-has_stats k =
        rw (spec.stats, has-put k id spec.st' s.stats)
          (ground (arith, has_of_find id s.stats spec.st spec.known, node_id_eq.test_iff id k))

    pub serve-Inv : Inv s'
    serve-Inv = record {
      synced = serve-IsSynced;
      valid = serve-IsValid;
      have_queues = λ k h.
          rw (spec.queues, has-put k id spec.q' s.queues)
            (ground (arith, inv.have_queues k (sym (serve-has_stats k) ∙ h)));
    }

    -- If all but the served client wait, then after its service all wait.
    pub serve-NoneStalled :
        ((k : NodeId) (q : PktQueue)
          → has k s.stats ≡ true
          → find k s.queues ≡ some q
          → q.packets ≢ []
          → (id =? k) ≡ false
          → has_elem k s.active_list.ids ≡ true)
        → NoneStalled s'
    serve-NoneStalled others k p known had full =
        let found : (if id =? k then some spec.q' else find k s.queues) ≡ some p =
          sym (find-put k id spec.q' s.queues) ∙ (rw spec.queues at had) in
        elim list_end [
          | inl e ↦ rw ((spec.emptied e).1) (elim (Bool-cases (id =? k)) [
            | inl y ↦ absurd (
                full
                  (ap (λ (q : PktQueue). q.packets) (sym (some-injective _ _ (rw y at found))) ∙ e))
            | inr n ↦ others k p (sym (serve-has_stats k) ∙ known) (rw n at found) full n
          ])
          | inr m ↦
              rw ((spec.carried m).1, has_elem-append_active k id s.active_list inv.synced)
                (elim (Bool-cases (id =? k)) [
                  | inl y ↦ rw y
                  | inr n ↦
                      rw (n, others k p (sym (serve-has_stats k) ∙ known) (rw n at found) full n)
                ])
        ]
