-- ===== src/Controller/Reading.antt =====
-- What `ReadTun` does with a packet whose client is read, when the tables of the controller fit together.
use wspace_controller.Prelude.{
  ℕ, ◌<◌, ◌≡◌, refl, subst, ◌∙◌, true, List, none, some, length, inl, inr, Bool-cases, Option-cases,
}
use mathlib.Core.Option.{some-injective}
use wspace_controller.Prelude.Int.{pos}
use wspace_controller.Prelude.Result.{ok}
use wspace_controller.Map.{Map, find, put, has, get_or, ◌=?◌}
use wspace_controller.Map.Laws.{find-put, has-put_old, has-find, has_of_find, get_or-find}
use wspace_controller.NodeId.{NodeId, node_id_eq}
use wspace_controller.Double.{Double}
use wspace_controller.Word.{add32}
use wspace_controller.Scheduler.{PktScheduler}
use wspace_controller.Controller.{
  WspaceController, queue_packet, enqueue_all, enqueue_at, contention_of,
}
use wspace_controller.Controller.Wiring.{
  IsWired, IsSameSetup, unchanged-IsSameSetup, station_read, find_route-none, find_route-some,
  enqueue_all-IsReady, enqueue_at-IsReady, all_counted,
}

module _ {W : Type 0} ⦃d : Double W⦄ where
  module _ (client_id : NodeId) (with_header : NodeId → ℕ → List ℕ → List ℕ) (bytes : List ℕ)
      (c : WspaceController W) where
    -- The controller with the packet counted.
    counted : ℕ → WspaceController W
    counted n = record c {
      client_original_seq_tbl = put client_id (add32 n 1) c.client_original_seq_tbl;
    }

    packet : ℕ → List ℕ
    packet n = with_header client_id (add32 n 1) bytes

    queue_packet-unknown :
        find client_id c.client_original_seq_tbl ≡ none
        → queue_packet client_id with_header bytes c ≡ ok c
    unfolding queue_packet
    queue_packet-unknown e = rw (e, queue_packet) refl

    queue_packet-broadcast :
        (n : ℕ) (m : Map NodeId (PktScheduler W))
        → find client_id c.client_original_seq_tbl ≡ some n
        → find client_id c.routing_tbl.route ≡ none
        → enqueue_all (packet n) client_id c.packet_scheduler_tbl ≡ ok m
        → queue_packet client_id with_header bytes c
          ≡ ok (record (counted n) { packet_scheduler_tbl = m })
    unfolding queue_packet packet counted
    queue_packet-broadcast n m e f run =
        let skips = find_route-none client_id c.routing_tbl f in
        rw (queue_packet, e, skips, run, skips) refl

    -- The controller after the packet is queued at a station.
    routed : ℕ → NodeId → NodeId → Map NodeId (PktScheduler W) → WspaceController W
    routed n b k m = record (counted n) {
      routing_tbl = station_read b c.routing_tbl;
      packet_scheduler_tbl = m;
      conflict_graph = put b k c.conflict_graph;
    }

    queue_packet-routed :
        (n : ℕ) (b k : NodeId) (m : Map NodeId (PktScheduler W))
        → find client_id c.client_original_seq_tbl ≡ some n
        → find client_id c.routing_tbl.route ≡ some b
        → get_or (pos 0) b c.conflict_graph ≡ k
        → enqueue_at (packet n) client_id k c.packet_scheduler_tbl ≡ ok m
        → queue_packet client_id with_header bytes c ≡ ok (routed n b k m)
    unfolding queue_packet packet counted routed contention_of
    queue_packet-routed n b k m e f g run =
        let reads = find_route-some client_id b c.routing_tbl f in
        rw (queue_packet, e, reads, contention_of, g, run, reads) refl

    put_domains :
        (b k : NodeId)
        → find b c.conflict_graph ≡ some k
        → IsWired c
        → (j l : NodeId) → find j (put b k c.conflict_graph) ≡ some l
        → has l c.packet_scheduler_tbl ≡ true
    put_domains b k g w j l h = elim (Bool-cases (b =? j)) [
      | inl y ↦
          subst (λ i. has i c.packet_scheduler_tbl ≡ true)
            (some-injective _ _ (rw (find-put j b k c.conflict_graph, y) at h)) (w.domains b k g)
      | inr n ↦ w.domains j l (rw (find-put j b k c.conflict_graph, n) at h)
    ]

    -- Where the tables fit together, and the packet has a byte once its header is before it, a turn of
    -- `ReadTun` that has the client's id ends without a fault: the scheduler to which it points is there. The tables fit together
    -- after it.
    pub queue_packet-IsWired :
        ((id : NodeId) (n : ℕ) → 0 < length (with_header id n bytes))
        → IsWired c
        → (c' : WspaceController W) × (queue_packet client_id with_header bytes c ≡ ok c')
          × IsWired c'
          × IsSameSetup c c'
    unfolding packet counted routed
    queue_packet-IsWired full w = elim (Option-cases (find client_id c.client_original_seq_tbl)) [
      | inl e ↦ (
        c,
        queue_packet-unknown e,
        w,
        unchanged-IsSameSetup c _ refl refl refl (λ k. refl) refl refl,
      )
      | inr (n, e) ↦
          let known = has_of_find client_id c.client_original_seq_tbl n e in
          elim (Option-cases (find client_id c.routing_tbl.route)) [
            | inl f ↦
                let (m, run, a, same) =
                  enqueue_all-IsReady _ (packet n) client_id c.packet_scheduler_tbl known (full _ _)
                    w.ready in
                (
                  record (counted n) { packet_scheduler_tbl = m },
                  queue_packet-broadcast n m e f run,
                  record {
                    stations = w.stations;
                    reports = w.reports;
                    rows = w.rows;
                    addresses = w.addresses;
                    listed = w.listed;
                    some_listed = w.some_listed;
                    domains = λ b k g. same k ∙ w.domains b k g;
                    ready = all_counted client_id _ _ m known a;
                  },
                  unchanged-IsSameSetup c _ refl refl refl same refl refl,
                )
            | inr (b, f) ↦
                let (k, g) = has-find b c.conflict_graph (w.stations client_id b f) in
                let (m, run, a, kept) =
                  enqueue_at-IsReady _ (packet n) client_id k c.packet_scheduler_tbl known
                    (full _ _) (w.domains b k g) w.ready in
                (
                  routed n b k m,
                  queue_packet-routed n b k m e f (get_or-find (pos 0) b c.conflict_graph k g) run,
                  record {
                    stations = λ dest j h. has-put_old j b k c.conflict_graph (w.stations dest j h);
                    reports = λ id j v h. has-put_old j b k c.conflict_graph (w.reports id j v h);
                    rows = w.rows;
                    addresses = λ j h. has-put_old j b k c.conflict_graph (w.addresses j h);
                    listed = λ j h. has-put_old j b k c.conflict_graph (w.listed j h);
                    some_listed = w.some_listed;
                    domains = λ j l h. kept l ∙ (put_domains b k g w j l h);
                    ready = all_counted client_id _ _ m known a;
                  },
                  unchanged-IsSameSetup c _ refl refl refl kept refl refl,
                )
          ]
    ]
