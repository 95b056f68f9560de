-- ===== src/Scheduler/Threads/Parts.antt =====
-- One part of the scheduler's state changes, and the invariant stays.
use mathlib.Core.Option.{some-injective}
use wspace_controller.Prelude.{◌≡◌, ap, subst, true, ◌∷◌, arith, Bool-cases, inl, inr, length}
use wspace_controller.Prelude.Result.{ok}
use wspace_controller.Map.{has, ◌=?◌}
use wspace_controller.Map.Laws.{find-put, has-put}
use wspace_controller.NodeId.{NodeId, node_id_eq}
use wspace_controller.Scheduler.Queue.{Packet, PktQueue, dequeue}
use wspace_controller.Scheduler.Queue.Laws.{IsValid, HaveLength}
use wspace_controller.Scheduler.Active.{ActiveList}
use wspace_controller.Scheduler.Active.Laws.{IsSynced}
use wspace_controller.Scheduler.Service.{Inv}
use wspace_controller.Scheduler.Threads.{with_queue, with_status, with_active}
use wspace_controller.Scheduler.{Status, PktScheduler}

-- The packet that comes out is the first, and the rest stays.
pub dequeue_parts :
    (q q' : PktQueue) (p : Packet)
    → dequeue q ≡ ok (p, q')
    → (q.packets ≡ p ∷ q'.packets) × (q'.max_size ≡ q.max_size)
unfolding dequeue
dequeue_parts q q' p e = ground arith

pub dequeue-IsValid :
    (q q' : PktQueue) (p : Packet) → IsValid q → dequeue q ≡ ok (p, q') → IsValid q'
dequeue-IsValid q q' p v e =
    let (split, size) = dequeue_parts q q' p e in
    record {
      bounded = omega (arith, v.bounded, ap length split, size);
      lengths = (subst HaveLength split v.lengths).1;
    }

module _ {W : Type 0} (s : PktScheduler W) (inv : Inv s) where
  pub with_queue-Inv : (id : NodeId) (q : PktQueue) → IsValid q → Inv (with_queue id q s)
  with_queue-Inv id q v = record {
    synced = inv.synced;
    valid = λ k p f. elim (Bool-cases (id =? k)) [
      | inl y ↦ subst IsValid (some-injective _ _ (rw (find-put k id q s.queues, y) at f)) v
      | inr n ↦ inv.valid k p (rw (find-put k id q s.queues, n) at f)
    ];
    have_queues = λ k h. rw (has-put k id q s.queues) (ground (arith, inv.have_queues k h));
  }

  pub with_status-Inv :
      (id : NodeId) (st : Status W) → has id s.stats ≡ true → Inv (with_status id st s)
  with_status-Inv id st known = record {
    synced = inv.synced;
    valid = inv.valid;
    have_queues = λ k h. elim (Bool-cases (id =? k)) [
      | inl y ↦
          subst (λ j. has j s.queues ≡ true) ((node_id_eq.test_iff id k).0 y)
            (inv.have_queues id known)
      | inr n ↦ inv.have_queues k (rw (has-put k id st s.stats, n) at h)
    ];
  }

  pub with_active-Inv : (l : ActiveList) → IsSynced l → Inv (with_active l s)
  with_active-Inv l v = record { synced = v; valid = inv.valid; have_queues = inv.have_queues }
