-- ===== src/Controller/Serving.antt =====
-- That `ForwardToBS` finds each client that it serves among those with an address, and leaves the
-- tables in order.
use wspace_controller.Prelude.{
  ◌≡◌, refl, sym, ap, subst, ◌∙◌, true, List, [], some, Bool-cases, inl, inr, ℕ,
}
use mathlib.Core.Option.{some-injective}
use wspace_controller.Prelude.Result.{ok}
use wspace_controller.Map.{Map, find, put, has, has_elem, ◌=?◌}
use wspace_controller.Map.Laws.{find-put, has-put_old, has-put_known, has_of_find}
use wspace_controller.Map.Every.{put-IsEvery, IsEvery-find}
use wspace_controller.NodeId.{NodeId, node_id_eq}
use wspace_controller.Double.{Double}
use wspace_controller.Tun.{is_valid_client}
use wspace_controller.Scheduler.{PktScheduler, Dequeued, waits, serves, dequeue}
use wspace_controller.Scheduler.Calls.{DequeueSpec, dequeue_lem}
use wspace_controller.Scheduler.History.{state_after}
use wspace_controller.Routing.{BsInfo}
use wspace_controller.Controller.{WspaceController}
use wspace_controller.Controller.Wiring.{IsReady, IsWired, IsSameSetup, unchanged-IsSameSetup}
use wspace_controller.Controller.Writing.{System, WriteSpec, written}
use wspace_controller.Controller.Forward.{
  Sending, send_all, forward_round, forward_to_bs, writes, with_infos, SendSpec, send_all_lem,
}

module _ {W : Type 0} ⦃d : Double W⦄ where
  -- A client on the list has an address, and only such a client has a status in a scheduler.
  pub record IsServed (c : WspaceController W) : Type 0 where
    pub addressed :
        (id : NodeId) → has_elem id c.routing_tbl.client_ids ≡ true → has id c.client_ip_tbl ≡ true
    pub listed :
        (k id : NodeId) (s : PktScheduler W)
        → find k c.packet_scheduler_tbl ≡ some s
        → has id s.stats ≡ true
        → has_elem id c.routing_tbl.client_ids ≡ true

  abbrev pub with_scheduler : NodeId → PktScheduler W → WspaceController W → WspaceController W
  with_scheduler k s c = record c { packet_scheduler_tbl = put k s c.packet_scheduler_tbl }

  dequeued-IsReady :
      (clients : Map NodeId ℕ) (s : PktScheduler W) (r : Dequeued W)
      → IsReady clients s
      → DequeueSpec s r
      → IsReady clients (state_after r)
  dequeued-IsReady clients s (waits s') ready (gone, e, queues, same, mode, inv) = record {
    inv = inv;
    queues = λ id h. rw queues (ready.queues id h);
    known = rw mode ready.known;
  }
  dequeued-IsReady clients s (serves id pkts s') ready (dropped, l, e, gone, known, spec, inv, _) =
      record {
        inv = inv;
        queues = λ j h. rw spec.queues (has-put_old j id spec.q' s.queues (ready.queues j h));
        known = rw spec.mode ready.known;
      }

  -- `Dequeue` gives nobody a status.
  dequeued_stats :
      (s : PktScheduler W) (r : Dequeued W) (j : NodeId)
      → DequeueSpec s r
      → has j (let s' = state_after r in s'.stats) ≡ true
      → has j s.stats ≡ true
  dequeued_stats s (waits s') j (gone, e, queues, same, mode, inv) h =
      subst (λ m. has j m ≡ true) same h
  dequeued_stats s (serves id pkts s') j (dropped, l, e, gone, known, spec, inv, _) h =
      sym (has-put_known j id spec.st' s.stats known) ∙ (sym (ap (has j) spec.stats) ∙ h)

  -- What a turn of `ForwardToBS` sends, from the answer of `Dequeue`.
  abbrev pub ForwardSpec :
      NodeId → WspaceController W → Dequeued W → List Sending → WspaceController W → Type 0
  ForwardSpec k c (waits s') out c' = (out ≡ []) × (c' ≡ with_scheduler k s' c)
  ForwardSpec k c (serves id pkts s') out c' =
      (has id c.client_ip_tbl ≡ true) × SendSpec id pkts (with_scheduler k s' c) out c'

  module _ (k : NodeId) (c : WspaceController W) (s : PktScheduler W) (w : IsWired c)
      (v : IsServed c) (found : find k c.packet_scheduler_tbl ≡ some s) where
    with_scheduler_keys :
        (s' : PktScheduler W) (j : NodeId)
        → has j (put k s' c.packet_scheduler_tbl) ≡ has j c.packet_scheduler_tbl
    with_scheduler_keys s' j =
        has-put_known j k s' c.packet_scheduler_tbl (has_of_find k c.packet_scheduler_tbl s found)

    infos-IsWired :
        (s' : PktScheduler W) (x : Map NodeId BsInfo)
        → IsReady c.client_original_seq_tbl s'
        → IsWired (with_infos x (with_scheduler k s' c))
    infos-IsWired s' x ready = record {
      stations = w.stations;
      reports = w.reports;
      rows = w.rows;
      addresses = w.addresses;
      listed = w.listed;
      some_listed = w.some_listed;
      domains = λ b j f. with_scheduler_keys s' j ∙ w.domains b j f;
      ready = put-IsEvery _ k s' c.packet_scheduler_tbl ready w.ready;
    }

    infos-IsServed :
        (s' : PktScheduler W) (x : Map NodeId BsInfo)
        → ((j : NodeId) → has j s'.stats ≡ true → has j s.stats ≡ true)
        → IsServed (with_infos x (with_scheduler k s' c))
    infos-IsServed s' x old = record {
      addressed = v.addressed;
      listed = λ j id t f h. elim (Bool-cases (k =? j)) [
        | inl y ↦
            let same : s' ≡ t =
              some-injective _ _ (rw (find-put j k s' c.packet_scheduler_tbl, y) at f) in
            v.listed k id s found (old id (subst (λ u. has id u.stats ≡ true) (sym same) h))
        | inr n ↦ v.listed j id t (rw (find-put j k s' c.packet_scheduler_tbl, n) at f) h
      ];
    }

    infos-IsSameSetup :
        (s' : PktScheduler W) (x : Map NodeId BsInfo)
        → IsSameSetup c (with_infos x (with_scheduler k s' c))
    infos-IsSameSetup s' x =
        unchanged-IsSameSetup c _ refl refl refl (with_scheduler_keys s') refl refl

    forward_from :
        (r : Dequeued W)
        → dequeue s ≡ ok r
        → DequeueSpec s r
        → (out : List Sending) × (x : Map NodeId BsInfo) × (forward_round k c
            ≡ ok (out, with_infos x (with_scheduler k (state_after r) c)))
          × ForwardSpec k c r out (with_infos x (with_scheduler k (state_after r) c))
    unfolding forward_round is_valid_client
    forward_from (waits s') run spec =
        ([], c.routing_tbl.bs_tbl, rw (forward_round, found, run) refl, (refl, refl))
    forward_from (serves id pkts s') run (dropped, l, e, gone, known, spec, inv, _) =
        let valid = v.addressed id (v.listed k id s found known) in
        let (sent, all, x, last, infos) = send_all_lem id pkts (with_scheduler k s' c) in
        (
          (send_all id pkts (with_scheduler k s' c)).0,
          x,
          rw (forward_round, found, run, valid)
              (ap ok (λ i. ((send_all id pkts (with_scheduler k s' c)).0, last i))),
          (valid, (sent, all, x, refl, infos)),
        )

  -- Where the tables are in order, each client on the list has an address, and nobody else has a status,
  -- a turn of `ForwardToBS` in a domain that has a scheduler ends without a fault as far as its calls of
  -- `Write`, and these fail only at the assertion that the system takes all bytes. It sends nothing where
  -- `Dequeue` sleeps; else `Dequeue` serves a client that has an address, and each of its packets goes
  -- out once, in order: to the address and port of the station on the client's route, with the pause of
  -- its throughput there, or to those of all stations in the mode for duplicates and where there is no
  -- route. The tables stay as they should be.
  pub forward_to_bs_lem :
      (sys : System) (k : NodeId) (c : WspaceController W) (s : PktScheduler W)
      → IsWired c
      → IsServed c
      → find k c.packet_scheduler_tbl ≡ some s
      → (r : Dequeued W) × (out : List Sending) × (c' : WspaceController W) × (dequeue s ≡ ok r)
        × DequeueSpec s r
        × (forward_round k c ≡ ok (out, c'))
        × WriteSpec sys (writes out) (out, c') (forward_to_bs sys k c)
        × ForwardSpec k c r out c'
        × IsWired c'
        × IsServed c'
        × IsSameSetup c c'
  unfolding forward_to_bs
  forward_to_bs_lem sys k c s w v found =
      let ready = IsEvery-find _ k s c.packet_scheduler_tbl w.ready found in
      let (r, run, spec) = dequeue_lem s ready.inv in
      let (out, x, turn, sends) = forward_from k c s w v found r run spec in
      let c' = with_infos x (with_scheduler k (state_after r) c) in
      let writing : WriteSpec sys (writes out) (out, c') (forward_to_bs sys k c) =
        rw turn (written sys (writes out) (out, c')) in
      let s' = state_after r in
      (
        r,
        out,
        with_infos x (with_scheduler k s' c),
        run,
        spec,
        turn,
        writing,
        sends,
        infos-IsWired k c s w v found s' x (dequeued-IsReady _ s r ready spec),
        infos-IsServed k c s w v found s' x (λ j. dequeued_stats s r j spec),
        infos-IsSameSetup k c s w v found s' x,
      )
