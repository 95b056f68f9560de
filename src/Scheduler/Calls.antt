-- ===== src/Scheduler/Calls.antt =====
-- `PktScheduler::Dequeue` as a whole call.
use wspace_controller.Prelude.{
  suc, ◌≡◌, refl, sym, ap, ◌∙◌, true, false, List, [], ◌∷◌, ◌++◌, some, arith, length, ◌≢◌,
}
use mathlib.Core.Bool.{true≢false}
use wspace_controller.Prelude.Result.{ok}
use wspace_controller.Map.{find, has, has_elem, ◌=?◌}
use wspace_controller.NodeId.{NodeId, node_id_eq}
use wspace_controller.Double.{Double}
use wspace_controller.Scheduler.Queue.{Packet, PktQueue}
use wspace_controller.Scheduler.Active.{ActiveList}
use wspace_controller.Scheduler.Active.Laws.{has_elem-append}
use wspace_controller.Scheduler.Pick.{PickSpec, AreAbsent, pick_lem}
use wspace_controller.Scheduler.Service.{Inv, NoneStalled, ServeSpec, serve_lem}
use wspace_controller.Scheduler.Fairness.{absent, serve-Inv, serve-NoneStalled}
use wspace_controller.Scheduler.{
  PktScheduler, Picked, nobody, client, Dequeued, waits, serves, pick, dequeue,
}

module _ {W : Type 0} ⦃d : Double W⦄ where
  -- What `Dequeue` does: it sleeps where no waiting client has a status, or it serves the oldest that
  -- has one; ids without a status are dropped.
  abbrev pub DequeueSpec : PktScheduler W → Dequeued W → Type 0
  DequeueSpec s (waits s') =
      AreAbsent s.stats s.active_list.ids
      × (s'.active_list.ids ≡ [])
      × (s'.queues ≡ s.queues)
      × (s'.stats ≡ s.stats)
      × (s'.fairness_mode ≡ s.fairness_mode)
      × Inv s'
  DequeueSpec s (serves id pkts s') =
      (dropped : List NodeId) × (l : ActiveList) × (s.active_list.ids ≡ dropped ++ id ∷ l.ids)
      × AreAbsent s.stats dropped
      × (has id s.stats ≡ true)
      × ServeSpec (record s { active_list = l }) id pkts s'
      × Inv s'
      × (NoneStalled s → NoneStalled s')

  waiting_others :
      (s : PktScheduler W) (dropped : List NodeId) (id : NodeId) (l : ActiveList)
      → s.active_list.ids ≡ dropped ++ id ∷ l.ids
      → AreAbsent s.stats dropped
      → NoneStalled s
      → (k : NodeId) (q : PktQueue) → has k s.stats ≡ true
      → find k s.queues ≡ some q
      → q.packets ≢ []
      → (id =? k) ≡ false
      → has_elem k l.ids ≡ true
  waiting_others s dropped id l e gone none_stalled k q known had full other =
      let waits_now = none_stalled k q known had full in
      ground (
        arith,
        ap (has_elem k) e,
        has_elem-append k dropped (id ∷ l.ids),
        absent s.stats k dropped gone,
      )

  -- From a state that satisfies the invariant `Dequeue` ends without a fault: it serves the oldest
  -- waiting client that has a status, or sleeps where there is none. The invariant holds again, and
  -- where every client with a status and a packet waited, it does so after the service.
  pub dequeue_lem :
      (s : PktScheduler W) → Inv s → (r : Dequeued W) × (dequeue s ≡ ok r) × DequeueSpec s r
  unfolding dequeue
  dequeue_lem s inv =
      let (p, run, spec) =
        pick_lem (suc (length s.active_list.ids)) s.stats s.active_list inv.synced (omega arith) in
      go p run spec
    where
      go :
          (p : Picked)
          → pick (suc (length s.active_list.ids)) s.stats s.active_list ≡ ok p
          → PickSpec s.stats s.active_list p
          → (r : Dequeued W) × (dequeue s ≡ ok r) × DequeueSpec s r
      go (nobody l) run (v, gone, e) = (
        waits (record s { active_list = l }),
        rw run,
        (
          gone,
          e,
          refl,
          refl,
          refl,
          record { synced = v; valid = inv.valid; have_queues = inv.have_queues },
        ),
      )
      go (client id l) run (dropped, v, known, gone, e) =
          let s1 : PktScheduler W = record s { active_list = l } in
          let inv1 : Inv s1 = record {
            synced = v;
            valid = inv.valid;
            have_queues = inv.have_queues;
          } in
          let (pkts, s', run', spec) = serve_lem id s1 inv1 known in
          (
            serves id pkts s',
            rw run run',
            (
              dropped,
              l,
              e,
              gone,
              known,
              spec,
              serve-Inv s1 id pkts s' inv1 spec,
              λ ns.
                  serve-NoneStalled s1 id pkts s' inv1 spec
                    (waiting_others s dropped id l e gone ns),
            ),
          )

  -- `Dequeue` does not sleep while a client with a status has a packet, if every such client waits.
  pub dequeue_progress :
      (s : PktScheduler W) (k : NodeId) (q : PktQueue)
      → Inv s
      → NoneStalled s
      → has k s.stats ≡ true
      → find k s.queues ≡ some q
      → q.packets ≢ []
      → (id : NodeId) × (pkts : List Packet) × (s' : PktScheduler W) × (dequeue s
          ≡ ok (serves id pkts s'))
  dequeue_progress s k q inv ns known had full = go (dequeue_lem s inv)
    where
      go :
          ((r : Dequeued W) × (dequeue s ≡ ok r) × DequeueSpec s r)
          → (id : NodeId) × (pkts : List Packet) × (s' : PktScheduler W) × (dequeue s
              ≡ ok (serves id pkts s'))
      go (waits s', run, spec) =
          let active = ns k q known had full in
          absurd (true≢false (sym known ∙ absent s.stats k s.active_list.ids spec.0 active))
      go (serves id pkts s', run, spec) = (id, pkts, s', run)
