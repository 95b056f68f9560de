-- ===== src/Controller/Runs.antt =====
-- Runs of the controller: any sequence of the turns in which `RecvFromBS` takes a packet, `ReadTun`
-- reads a packet, `ComputeRoutes` chooses routes and `ForwardToBS` serves a contention domain.
use wspace_controller.Prelude.{
  ℕ, ◌<◌, ◌≡◌, refl, ap, ◌∙◌, List, [], ◌∷◌, length, true, ◌⊎◌, inl, inr,
}
use wspace_controller.Prelude.Result.{Result, ok, err, ◌>>=◌, assert_failed}
use wspace_controller.Map.{has}
use wspace_controller.Map.Laws.{has-find}
use wspace_controller.NodeId.{NodeId, node_id_eq}
use wspace_controller.Double.{Double}
use wspace_controller.Routing.{Table}
use wspace_controller.Routing.Laws.{IsOrdered}
use wspace_controller.Controller.{WspaceController, read_tun, queue_packet, compute_routes}
use wspace_controller.Controller.Wiring.{
  IsWired, IsSameSetup, unchanged-IsSameSetup, IsSameSetup-trans,
}
use wspace_controller.Controller.Receive.{Received, answer, recv_from_bs, IsExpected}
use wspace_controller.Controller.Client.{IsInetNtoa, IsIpPacket, extract_client_id-IsIpPacket}
use wspace_controller.Controller.Writing.{Sent, System, NotTaken, WriteSpec}
use wspace_controller.Controller.Stations.{answer_lem, recv_from_bs-WriteSpec, IsExpected-later}
use wspace_controller.Controller.Forward.{Sending, forward_round, forward_to_bs, writes}
use wspace_controller.Controller.Serving.{IsServed, forward_to_bs_lem}
use wspace_controller.Controller.Served.{answer-IsServed, queue_packet-IsServed}
use wspace_controller.Controller.Reading.{queue_packet-IsWired}
use wspace_controller.Controller.Choosing.{CanChoose, EndsServed, compute_routes-EndsServed}

pub data Turn (W : Type 0) : Type 0 where
  hears : Received W → Turn W
  reads : List ℕ → Turn W
  routes : Turn W
  forwards : NodeId → Turn W

module _ {W : Type 0} ⦃d : Double W⦄ where
  -- What the system calls return, the size of `CellDataHeader`, `inet_ntoa`, `sizeof (long)`, the header
  -- before a packet and the optimizer are parameters.
  unfoldable pub turn :
      System
      → ℕ
      → (List ℕ → List ℕ)
      → ℕ
      → (NodeId → ℕ → List ℕ → List ℕ)
      → (Table W → List NodeId)
      → Turn W
      → WspaceController W
      → Result (WspaceController W)
  turn sys n inet_ntoa long_size with_header solve (hears r) c =
      recv_from_bs sys n r c >>= λ p. ok p.1
  turn sys n inet_ntoa long_size with_header solve (reads bytes) c =
      read_tun inet_ntoa long_size with_header bytes c
  turn sys n inet_ntoa long_size with_header solve routes c = compute_routes solve c
  turn sys n inet_ntoa long_size with_header solve (forwards k) c =
      forward_to_bs sys k c >>= λ p. ok p.1

  unfoldable pub turns :
      System
      → ℕ
      → (List ℕ → List ℕ)
      → ℕ
      → (NodeId → ℕ → List ℕ → List ℕ)
      → (Table W → List NodeId)
      → List (Turn W)
      → WspaceController W
      → Result (WspaceController W)
  unfolding turn
  turns sys n inet_ntoa long_size with_header solve [] c = ok c
  turns sys n inet_ntoa long_size with_header solve (t ∷ ts) c =
      turn sys n inet_ntoa long_size with_header solve t c
      >>= turns sys n inet_ntoa long_size with_header solve ts

  -- The packets of the stations are expected, those of the tunnel have a destination, and `ForwardToBS`
  -- runs in domains that have a scheduler.
  abbrev pub AreExpected : ℕ → List (Turn W) → WspaceController W → Type 0
  AreExpected n [] c = Unit
  AreExpected n (hears r ∷ ts) c = IsExpected n r c × AreExpected n ts c
  AreExpected n (reads bytes ∷ ts) c = IsIpPacket bytes × AreExpected n ts c
  AreExpected n (forwards k ∷ ts) c = (has k c.packet_scheduler_tbl ≡ true) × AreExpected n ts c
  AreExpected n (routes ∷ ts) c = AreExpected n ts c

  AreExpected-later :
      (n : ℕ) (ts : List (Turn W)) (c c' : WspaceController W)
      → IsSameSetup c c'
      → AreExpected n ts c
      → AreExpected n ts c'
  AreExpected-later n [] c c' s e = tt
  AreExpected-later n (hears r ∷ ts) c c' s e =
      (IsExpected-later n r c c' s e.0, AreExpected-later n ts c c' s e.1)
  AreExpected-later n (reads bytes ∷ ts) c c' s e = (e.0, AreExpected-later n ts c c' s e.1)
  AreExpected-later n (routes ∷ ts) c c' s e = AreExpected-later n ts c c' s e
  AreExpected-later n (forwards k ∷ ts) c c' s e =
      (s.domains k ∙ e.0, AreExpected-later n ts c c' s e.1)

  CanChoose-later :
      (solve : Table W → List NodeId) (c c' : WspaceController W)
      → IsSameSetup c c'
      → CanChoose solve c.scheduling_mode c.routing_tbl.bs_ids c.routing_tbl.client_ids
      → CanChoose solve c'.scheduling_mode c'.routing_tbl.bs_ids c'.routing_tbl.client_ids
  CanChoose-later solve c c' same can = rw (same.mode, same.bs_ids, same.client_ids) can

  -- The calls of `Write` that a turn makes.
  abbrev MakesWrites : ℕ → Turn W → WspaceController W → List Sent → Type 0
  MakesWrites n (hears r) c sent = (c' : WspaceController W) × (answer n r c ≡ ok (sent, c'))
  MakesWrites n (forwards k) c sent =
      (out : List Sending) × (c' : WspaceController W) × (forward_round k c ≡ ok (out, c'))
      × (writes out ≡ sent)
  MakesWrites n (reads bytes) c sent = ⊥
  MakesWrites n routes c sent = ⊥

  -- One of the turns comes to a write that the system does not take whole; those before it return.
  abbrev FailsAtWrite :
      System
      → ℕ
      → (Turn W → WspaceController W → Result (WspaceController W))
      → List (Turn W)
      → WspaceController W
      → Type 0
  FailsAtWrite sys n run [] c = ⊥
  FailsAtWrite sys n run (t ∷ ts) c =
      ((sent : List Sent) × MakesWrites n t c sent × NotTaken sys sent)
      ⊎ ((c' : WspaceController W) × (run t c ≡ ok c') × FailsAtWrite sys n run ts c')

  -- The turns end without a fault, in tables that are in order with the setup as before; or at the
  -- assertion of `Write`, for a write of theirs that the system does not take whole.
  abbrev pub RunSpec :
      System
      → ℕ
      → (Turn W → WspaceController W → Result (WspaceController W))
      → List (Turn W)
      → WspaceController W
      → Result (WspaceController W)
      → Type 0
  RunSpec sys n run ts c r =
      EndsServed c r ⊎ (FailsAtWrite sys n run ts c × (r ≡ err assert_failed))

  -- A turn that ends with writes.
  written-RunSpec :
      {A : Type 0} (sys : System) (sent : List Sent) (a : A) (get : A → WspaceController W) (n : ℕ)
      (run : Turn W → WspaceController W → Result (WspaceController W)) (t : Turn W)
      (c : WspaceController W) (r : Result A)
      → MakesWrites n t c sent
      → WriteSpec sys sent a r
      → IsWired (get a)
      → IsServed (get a)
      → IsSameSetup c (get a)
      → RunSpec sys n run (t ∷ []) c (r >>= λ x. ok (get x))
  written-RunSpec sys sent a get n turn t c r makes (inl (_, run)) w v same =
      inl (get a, ap (λ x. x >>= λ y. ok (get y)) run, w, v, same)
  written-RunSpec sys sent a get n turn t c r makes (inr (not_taken, run)) w v same =
      inr (inl (sent, makes, not_taken), ap (λ x. x >>= λ y. ok (get y)) run)

  module _ (laws : IsOrdered W) (sys : System) (n : ℕ) (inet_ntoa : List ℕ → List ℕ) (long_size : ℕ)
      (with_header : NodeId → ℕ → List ℕ → List ℕ) (solve : Table W → List NodeId)
      (text : IsInetNtoa inet_ntoa) (four : long_size ≡ 4)
      (full : (id : NodeId) (k : ℕ) (bytes : List ℕ) → 0 < length (with_header id k bytes)) where
    turn-RunSpec :
        (t : Turn W) (c : WspaceController W)
        → CanChoose solve c.scheduling_mode c.routing_tbl.bs_ids c.routing_tbl.client_ids
        → AreExpected n (t ∷ []) c
        → IsWired c
        → IsServed c
        → RunSpec sys n
            (turn sys n inet_ntoa long_size with_header solve)
            (t ∷ [])
            c
            (turn sys n inet_ntoa long_size with_header solve t c)
    unfolding turn read_tun
    turn-RunSpec (hears r) c mode e w v =
        let (sent, c', run, to, w', same) = answer_lem n r c e.0 w in
        let spec = recv_from_bs-WriteSpec sys n r c c' sent run in
        written-RunSpec sys sent (sent, c') (λ p. p.1) n
          (turn sys n inet_ntoa long_size with_header solve) (hears r) c _ (c', run) spec w'
          (answer-IsServed n r c c' sent run same v) same
    turn-RunSpec (reads bytes) c mode e w v =
        let (id, reads_id) = extract_client_id-IsIpPacket inet_ntoa long_size bytes text four e.0 in
        let (c', run, w', same) =
          queue_packet-IsWired id with_header bytes c (λ i k. full i k bytes) w in
        inl (
          c',
          ap (λ x. x >>= λ i. queue_packet i with_header bytes c) reads_id ∙ run,
          w',
          queue_packet-IsServed id with_header bytes c c' run same v,
          same,
        )
    turn-RunSpec routes c mode e w v = inl (compute_routes-EndsServed laws solve c mode w v)
    turn-RunSpec (forwards k) c mode e w v =
        let (s, found) = has-find k c.packet_scheduler_tbl e.0 in
        let (_, out, c', _, _, round, spec, _, w', v', same) =
          forward_to_bs_lem sys k c s w v found in
        written-RunSpec sys (writes out) (out, c') (λ p. p.1) n
          (turn sys n inet_ntoa long_size with_header solve) (forwards k) c _ (out, c', round, refl)
          spec w' v' same

    first_expected :
        (t : Turn W) (ts : List (Turn W)) (c : WspaceController W)
        → AreExpected n (t ∷ ts) c
        → AreExpected n (t ∷ []) c × AreExpected n ts c
    first_expected (hears r) ts c e = ((e.0, tt), e.1)
    first_expected (reads bytes) ts c e = ((e.0, tt), e.1)
    first_expected routes ts c e = (tt, e)
    first_expected (forwards k) ts c e = ((e.0, tt), e.1)

    -- From tables that are in order, with an address for each client, in a mode that chooses routes,
    -- with doubles that have no NaN, a `long` of 4 bytes, an `inet_ntoa` that writes an address with dots, a
    -- header of at least one byte, and answers of the optimizer with at most one line a client, each a
    -- station on the list or -1: any sequence of expected packets from the stations, packets of the tunnel
    -- with a destination, new routes and rounds of forwarding in domains that have a scheduler ends
    -- without a fault and leaves the tables in order, or it ends at the assertion of `Write`, and then one
    -- of its turns, after others that return, comes to a write that the system does not take whole. A packet
    -- never finds the scheduler of its contention domain missing, no other assertion fails, and no client
    -- without an address is served. Where it ends without a fault, the mode stays, and so do the stations and
    -- clients that have an address.
    pub turns-IsWired :
        (ts : List (Turn W)) (c : WspaceController W)
        → CanChoose solve c.scheduling_mode c.routing_tbl.bs_ids c.routing_tbl.client_ids
        → AreExpected n ts c
        → IsWired c
        → IsServed c
        → RunSpec sys n
            (turn sys n inet_ntoa long_size with_header solve)
            ts
            c
            (turns sys n inet_ntoa long_size with_header solve ts c)
    unfolding turns
    turns-IsWired [] c mode e w v =
        inl (c, refl, w, v, unchanged-IsSameSetup c _ refl refl refl (λ k. refl) refl refl)
    turns-IsWired (t ∷ ts) c mode e w v =
        let (now, later) = first_expected t ts c e in
        let rest = turns sys n inet_ntoa long_size with_header solve ts in
        elim (turn-RunSpec t c mode now w v) [
          | inr (inl fails, run) ↦ inr (inl fails, ap (λ x. x >>= rest) run)
          | inr (inr (_, _, no_more), run) ↦ absurd no_more
          | inl (c1, run, w1, v1, same) ↦
              elim (turns-IsWired ts c1 (CanChoose-later solve c c1 same mode)
                (AreExpected-later n ts c c1 same later) w1 v1) [
                  | inr (fails, runs) ↦ inr (inr (c1, run, fails), ap (λ x. x >>= rest) run ∙ runs)
                  | inl (c2, runs, w2, v2, last) ↦ inl (
                    c2,
                    ap (λ x. x >>= rest) run ∙ runs,
                    w2,
                    v2,
                    IsSameSetup-trans c c1 c2 same last,
                  )
                ]
        ]
