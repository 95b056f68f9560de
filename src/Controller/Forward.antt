-- ===== src/Controller/Forward.antt =====
-- `ForwardToBS` of wspace_controller.cc: the packets of one client go out, each to the addresses of
-- its stations.
use wspace_controller.Prelude.{
  ◌*◌, ◌≡◌, refl, ap, subst, true, false, List, [], ◌∷◌, none, some, Option-cases, inl, inr,
  if◌then◌else◌, map, ℕ, ◌∙◌,
}
use wspace_controller.Prelude.Int.{ℤ, pos}
use wspace_controller.Prelude.Result.{Result, ok, err, ◌>>=◌, ◌>>◌, exited, undefined}
use wspace_controller.Map.{Map, find, put, get_or, keys}
use wspace_controller.Map.Laws.{get_or-put_same}
use wspace_controller.NodeId.{NodeId, node_id_eq}
use wspace_controller.Double.{Double}
use wspace_controller.Tun.{is_valid_client}
use wspace_controller.Scheduler.{waits, serves, dequeue}
use wspace_controller.Scheduler.Queue.{Packet}
use wspace_controller.Routing.{BsInfo, no_info, get_throughput, find_route}
use wspace_controller.Controller.{
  WspaceController, forward, shortest, is_duplication, pause_for, destined, all_targets,
}
use wspace_controller.Controller.Writing.{Sent, to_address, System, write_all}
use wspace_controller.Controller.Wiring.{find_route-none, find_route-some}

-- One packet on its way: the addresses and ports to which it goes, and the sleep after it.
pub record Sending : Type 0 where
  pub packet : Packet
  pub targets : List (List ℕ × ℕ)
  pub pause : ℤ

-- The calls of `Write` for a packet, whose `len` is that of its bytes, and for all packets of a round.
abbrev pub write_to : List ℕ → List (List ℕ × ℕ) → List Sent → List Sent
write_to bytes [] rest = rest
write_to bytes (t ∷ ts) rest = to_address t.0 t.1 bytes ∷ write_to bytes ts rest

abbrev pub writes : List Sending → List Sent
writes [] = []
writes (x ∷ xs) = write_to x.packet.bytes x.targets (writes xs)

abbrev as_sending : Packet → List (List ℕ × ℕ) × ℤ → Sending
as_sending p to = record { packet = p; targets = to.0; pause = to.1 }

module _ {W : Type 0} ⦃d : Double W⦄ where
  -- The loop over the packets of a round.
  unfoldable pub send_all :
      NodeId → List Packet → WspaceController W → List Sending × WspaceController W
  send_all client_id [] c = ([], c)
  send_all client_id (p ∷ ps) c =
      let (to, c1) = forward client_id p.len c in
      let (rest, c2) = send_all client_id ps c1 in
      (record { packet = p; targets = to.0; pause = to.1 } ∷ rest, c2)

  -- What a turn of `ForwardToBS` in a contention domain sends. Where `Dequeue` sleeps, that is nothing.
  unfoldable pub forward_round :
      NodeId → WspaceController W → Result (List Sending × WspaceController W)
  unfolding send_all
  forward_round contention_id c = elim (find contention_id c.packet_scheduler_tbl) [
    | none ↦ err undefined
    | some s ↦ do
      dequeued ← dequeue s
      elim dequeued [
        | waits s' ↦
            ok ([], record c { packet_scheduler_tbl = put contention_id s' c.packet_scheduler_tbl })
        | serves client_id pkts s' ↦
            if is_valid_client client_id c.client_ip_tbl
            then ok (
                send_all client_id pkts
                  (record c { packet_scheduler_tbl = put contention_id s' c.packet_scheduler_tbl }))
            else err exited
      ]
  ]

  -- The turn with its calls of `Write`, one for each packet and address in turn. Nothing else of the
  -- turn depends on them, so they stand at its end.
  unfoldable pub forward_to_bs :
      System → NodeId → WspaceController W → Result (List Sending × WspaceController W)
  unfolding forward_round write_all
  forward_to_bs sys contention_id c =
      forward_round contention_id c >>= λ p. write_all sys (writes p.0) >> ok p

  -- The table of stations with other entries.
  abbrev pub with_infos : Map NodeId BsInfo → WspaceController W → WspaceController W
  with_infos x c = record c { routing_tbl = record c.routing_tbl { bs_tbl = x } }

  -- What the table says of a station.
  abbrev pub info_of : NodeId → WspaceController W → BsInfo
  info_of b c = get_or no_info b c.routing_tbl.bs_tbl

  -- A packet goes to the address and port of the station on the client's route and waits for the time of
  -- its throughput there; without a route, and in the mode for duplicates, it goes to all stations that
  -- have an address, and waits in that mode for the shortest of their times.
  abbrev pub IsAddressed : NodeId → WspaceController W → Sending → Type 0
  IsAddressed id c x =
      (is_duplication c.scheduling_mode ≡ true
        → (x.targets ≡ all_targets c)
          × (x.pause
              ≡ shortest id x.packet.len c.bs_stats_tbl (keys c.bs_ip_tbl)
                  (pos (x.packet.len * 8))))
      × (is_duplication c.scheduling_mode ≡ false
          → find id c.routing_tbl.route ≡ none
          → (x.targets ≡ all_targets c) × (x.pause ≡ pos (x.packet.len * 8)))
      × ((b : NodeId)
          → is_duplication c.scheduling_mode ≡ false
          → find id c.routing_tbl.route ≡ some b
          → (x.targets ≡ ((info_of b c).ip_eth, (info_of b c).port) ∷ [])
            × (x.pause ≡ pause_for x.packet.len (get_throughput id b c.bs_stats_tbl)))

  abbrev pub AreAddressed : NodeId → WspaceController W → List Sending → Type 0
  AreAddressed id c [] = Unit
  AreAddressed id c (x ∷ xs) = IsAddressed id c x × AreAddressed id c xs

  destined-IsAddressed :
      (id : NodeId) (p : Packet) (c : WspaceController W)
      → IsAddressed id c (
          as_sending p (
            destined
              (is_duplication c.scheduling_mode)
              ((find_route id c.routing_tbl).0)
              id
              p.len
              c))
  unfolding destined
  destined-IsAddressed id p c = (
    λ e. rw e (refl, refl),
    λ e f. rw (e, find_route-none id c.routing_tbl f) (refl, refl),
    λ b e f. rw (e, find_route-some id b c.routing_tbl f) (refl, refl),
  )

  -- A table that says the same of every station.
  abbrev pub HasSameInfos : Map NodeId BsInfo → WspaceController W → Type 0
  HasSameInfos x c = (b : NodeId) → get_or no_info b x ≡ info_of b c

  -- `FindRoute` changes the entries of stations alone, and what they say stays.
  find_route-infos :
      (id : NodeId) (c : WspaceController W)
      → (x : Map NodeId BsInfo) × (record c { routing_tbl = (find_route id c.routing_tbl).1 }
          ≡ with_infos x c)
        × HasSameInfos x c
  find_route-infos id c = elim (Option-cases (find id c.routing_tbl.route)) [
    | inl f ↦ (c.routing_tbl.bs_tbl, rw (find_route-none id c.routing_tbl f) refl, λ b. refl)
    | inr (b, f) ↦ (
      put b (get_or no_info b c.routing_tbl.bs_tbl) c.routing_tbl.bs_tbl,
      rw (find_route-some id b c.routing_tbl f) refl,
      λ j. get_or-put_same no_info j b c.routing_tbl.bs_tbl,
    )
  ]

  -- What the loop does: every packet goes out, in order, to its stations, and nothing changes but for
  -- the entries of stations.
  abbrev pub SendSpec :
      NodeId → List Packet → WspaceController W → List Sending → WspaceController W → Type 0
  SendSpec id ps c out c' =
      (map (λ (x : Sending). x.packet) out ≡ ps)
      × AreAddressed id c out
      × (x : Map NodeId BsInfo) × (c' ≡ with_infos x c)
      × HasSameInfos x c

  AreAddressed-infos :
      (id : NodeId) (c : WspaceController W) (x : Map NodeId BsInfo) (out : List Sending)
      → HasSameInfos x c
      → AreAddressed id (with_infos x c) out
      → AreAddressed id c out
  AreAddressed-infos id c x [] same a = tt
  AreAddressed-infos id c x (s ∷ out) same ((dup, all, one), a) = (
    (
      dup,
      all,
      λ b e f.
          ((one b e f).0 ∙ ap (λ (i : BsInfo). (i.ip_eth, i.port) ∷ []) (same b), (one b e f).1),
    ),
    AreAddressed-infos id c x out same a,
  )

  pub send_all_lem :
      (id : NodeId) (ps : List Packet) (c : WspaceController W)
      → SendSpec id ps c ((send_all id ps c).0) ((send_all id ps c).1)
  unfolding send_all forward
  send_all_lem id [] c = (refl, tt, c.routing_tbl.bs_tbl, refl, λ b. refl)
  send_all_lem id (p ∷ ps) c =
      let (x, e, now) = find_route-infos id c in
      let c1 : WspaceController W = record c { routing_tbl = (find_route id c.routing_tbl).1 } in
      let (sent, all, y, last, later) =
        subst (λ k. SendSpec id ps k ((send_all id ps c1).0) ((send_all id ps c1).1)) e
          (send_all_lem id ps c1) in
      (
        ap (λ qs. p ∷ qs) sent,
        (destined-IsAddressed id p c, AreAddressed-infos id c x _ now all),
        y,
        last,
        λ b. later b ∙ now b,
      )
