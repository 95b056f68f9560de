-- ===== src/Controller.antt =====
-- `WspaceController` of wspace_controller.h and wspace_controller.cc: what its threads do in one turn
-- of their loops. The layout of the headers in memory is the compiler's, and the text of an address the
-- system's: the functions that write them are parameters.
pub mod Laws
pub mod Wiring
pub mod Reading
pub mod Split
pub mod Rounds
pub mod Turns
pub mod Writing
pub mod Receive
pub mod Stations
pub mod Forward
pub mod Serving
pub mod Served
pub mod Choosing
pub mod Runs
pub mod Client
pub mod Begin
pub mod Safety
use wspace_controller.Prelude.{
  ℕ, ◌+◌, ◌*◌, ◌≡◌, Bool, true, false, ◌&&◌, not, List, [], ◌∷◌, ◌++◌, Option, none, some, ltb,
  if◌then◌else◌, length, map,
}
use wspace_controller.Prelude.Int.{ℤ, pos, ltb_ℤ}
use wspace_controller.Prelude.Result.{Result, ok, err, ◌>>=◌, assert_failed, undefined}
use wspace_controller.Map.{Map, find, put, has, get_or, keys}
use wspace_controller.NodeId.{NodeId, node_id_eq}
use wspace_controller.Double.{Double, pkt_duration}
use wspace_controller.Word.{add32}
use wspace_controller.Scheduler.{PktScheduler}
use wspace_controller.Scheduler
use wspace_controller.Scheduler.Quantum.{compute_quantum}
use wspace_controller.Routing.{
  Table, RoutingTable, SchedulingMode, BsInfo, duplication, update_stats, get_throughput,
  find_route,
}
use wspace_controller.Routing.Update.{update_routes, port_eth}
use Client.{extract_client_id}

-- The members that the threads share, with the static `current_seq` of `RecvFromBS`: <bs_id,
-- <client_id, seq>>.
pub record WspaceController (W : Type 0) : Type 0 where
  pub bs_ip_tbl : Map NodeId (List ℕ)
  pub client_ip_tbl : Map NodeId (List ℕ)
  pub current_seq : Table ℕ
  pub bs_stats_tbl : Table W
  pub routing_tbl : RoutingTable W
  pub packet_scheduler_tbl : Map NodeId (PktScheduler W)
  pub client_original_seq_tbl : Map NodeId ℕ
  pub conflict_graph : Map NodeId NodeId
  pub scheduling_mode : SchedulingMode

-- `BSStatsPkt`, as `ParsePkt` reads it.
pub record BsStatsPkt (W : Type 0) : Type 0 where
  pub seq : ℕ
  pub bs_id : NodeId
  pub client_id : NodeId
  pub throughput : W

-- `current_seq[bs_id][client_id]`; a missing entry reads as 0.
unfoldable pub seq_at : NodeId → NodeId → Table ℕ → ℕ
seq_at bs_id client_id t = get_or 0 client_id (get_or [] bs_id t)

unfoldable pub set_seq : NodeId → NodeId → ℕ → Table ℕ → Table ℕ
set_seq bs_id client_id seq t = put bs_id (put client_id seq (get_or [] bs_id t)) t

-- `conflict_graph_[bs_id]`, which enters a station that is missing.
unfoldable pub contention_of : NodeId → Map NodeId NodeId → NodeId × Map NodeId NodeId
contention_of bs_id g = let k = get_or (pos 0) bs_id g in (k, put bs_id k g)

unfoldable pub is_duplication : SchedulingMode → Bool
is_duplication duplication = true
is_duplication _ = false

module _ {W : Type 0} ⦃d : Double W⦄ where
  -- `RecvFromBS` on a packet of statistics.
  unfoldable pub recv_stats : BsStatsPkt W → WspaceController W → WspaceController W
  unfolding seq_at set_seq
  recv_stats p c =
      if has p.bs_id c.bs_ip_tbl
        && has p.client_id c.client_ip_tbl
        && ltb (seq_at p.bs_id p.client_id c.current_seq) p.seq
      then record c {
        current_seq = set_seq p.bs_id p.client_id p.seq c.current_seq;
        bs_stats_tbl = update_stats p.client_id p.bs_id p.throughput c.bs_stats_tbl;
      }
      else c

  -- `Enqueue` in the schedulers of all contention domains.
  unfoldable pub enqueue_all :
      List ℕ → NodeId → Map NodeId (PktScheduler W) → Result (Map NodeId (PktScheduler W))
  enqueue_all pkt client_id [] = ok []
  enqueue_all pkt client_id ((k, s) ∷ m) = do
    s' ← Scheduler.enqueue pkt (length pkt) client_id s
    m' ← enqueue_all pkt client_id m
    ok ((k, s') ∷ m')

  -- `Enqueue` in the scheduler of a contention domain; where there is none, the pointer is null.
  unfoldable pub enqueue_at :
      List ℕ → NodeId → NodeId → Map NodeId (PktScheduler W) → Result (Map NodeId (PktScheduler W))
  enqueue_at pkt client_id contention_id m = elim (find contention_id m) [
    | none ↦ err undefined
    | some s ↦ do s' ← Scheduler.enqueue pkt (length pkt) client_id s; ok (put contention_id s' m)
  ]

  -- `ReadTun` once it has the client's id; `with_header` puts a header with the id and its sequence
  -- number before the bytes that it read.
  unfoldable pub queue_packet :
      NodeId
      → (NodeId → ℕ → List ℕ → List ℕ)
      → List ℕ
      → WspaceController W
      → Result (WspaceController W)
  unfolding find_route contention_of enqueue_at enqueue_all
  queue_packet client_id with_header bytes c = elim (find client_id c.client_original_seq_tbl) [
    | none ↦ ok c
    | some n ↦
        let seq = add32 n 1 in
        let pkt = with_header client_id seq bytes in
        let (found, t) = find_route client_id c.routing_tbl in
        let c' = record c {
          client_original_seq_tbl = put client_id seq c.client_original_seq_tbl;
          routing_tbl = t;
        } in
        elim found [
          | none ↦ do
            m ← enqueue_all pkt client_id c'.packet_scheduler_tbl
            ok (record c' { packet_scheduler_tbl = m })
          | some (bs_id, info) ↦ do
            let (k, g) = contention_of bs_id c'.conflict_graph
            m ← enqueue_at pkt client_id k c'.packet_scheduler_tbl
            ok (record c' { packet_scheduler_tbl = m; conflict_graph = g })
        ]
  ]

  -- One turn of `ReadTun` on the bytes that it read.
  unfoldable pub read_tun :
      (List ℕ → List ℕ)
      → ℕ
      → (NodeId → ℕ → List ℕ → List ℕ)
      → List ℕ
      → WspaceController W
      → Result (WspaceController W)
  unfolding queue_packet
  read_tun inet_ntoa long_size with_header bytes c =
      extract_client_id inet_ntoa long_size bytes >>= λ client_id.
      queue_packet client_id with_header bytes c

  -- The loop of `ComputeRoutes` that sorts the throughputs by contention domain.
  unfoldable pub split_throughputs :
      Map NodeId W → Table W → WspaceController W → Result (Table W × WspaceController W)
  unfolding find_route contention_of
  split_throughputs [] split c = ok (split, c)
  split_throughputs ((client_id, throughput) ∷ ts) split c =
      let (found, t) = find_route client_id c.routing_tbl in
      elim found [
        | none ↦ err assert_failed
        | some (bs_id, info) ↦
            let (k, g) = contention_of bs_id c.conflict_graph in
            split_throughputs ts (put k (put client_id throughput (get_or [] k split)) split)
              (record c { routing_tbl = t; conflict_graph = g })
      ]

  -- The loop that hands each scheduler its throughputs, unless it has none.
  unfoldable pub compute_all :
      Table W → Map NodeId (PktScheduler W) → Result (Map NodeId (PktScheduler W))
  compute_all split [] = ok []
  compute_all split ((k, s) ∷ m) = do
    m' ← compute_all split m
    elim (get_or [] k split) [
      | [] ↦ ok ((k, s) ∷ m')
      | p ∷ ps ↦ compute_quantum (p ∷ ps) s >>= λ s'. ok ((k, s') ∷ m')
    ]

  -- `ForwardToBS`, when no station is chosen: the shortest time over those with a throughput.
  unfoldable pub shortest : NodeId → ℕ → Table W → List NodeId → ℤ → ℤ
  shortest client_id len stats [] duration = duration
  shortest client_id len stats (b ∷ bs) duration =
      shortest client_id len stats bs (elim (get_throughput client_id b stats) [
        | none ↦ duration
        | some t ↦ let dur = pkt_duration len t in if ltb_ℤ dur duration then dur else duration
      ])

  -- One turn of `ComputeRoutes`, with what the optimizer answers as a parameter.
  unfoldable pub compute_routes :
      (Table W → List NodeId) → WspaceController W → Result (WspaceController W)
  unfolding split_throughputs compute_all update_routes
  compute_routes solve c = do
    (t, throughputs) ← update_routes solve c.scheduling_mode c.bs_stats_tbl c.routing_tbl
    (split, c') ← split_throughputs throughputs [] (record c { routing_tbl = t; bs_stats_tbl = [] })
    m ← compute_all split c'.packet_scheduler_tbl
    ok (record c' { packet_scheduler_tbl = m })

  -- The time for a packet at a throughput; with none, at 1 Mbps.
  unfoldable pub pause_for : ℕ → Option W → ℤ
  pause_for len none = pos (len * 8)
  pause_for len (some throughput) = pkt_duration len throughput

  -- The addresses of all stations, with `PORT_ETH`.
  abbrev pub all_targets : WspaceController W → List (List ℕ × ℕ)
  all_targets c = map (λ p. (p.1, port_eth)) c.bs_ip_tbl

  -- `ForwardToBS` on one packet of `len` bytes, from what `FindRoute` finds and whether the mode is
  -- `kDuplication`: the addresses and ports to which the packet goes, and the time of the sleep after it.
  unfoldable pub destined :
      Bool → Option (NodeId × BsInfo) → NodeId → ℕ → WspaceController W → List (List ℕ × ℕ) × ℤ
  unfolding shortest get_throughput pause_for
  destined true found client_id len c =
      (all_targets c, shortest client_id len c.bs_stats_tbl (keys c.bs_ip_tbl) (pos (len * 8)))
  destined false none client_id len c = (all_targets c, pos (len * 8))
  destined false (some (bs_id, info)) client_id len c =
      ((info.ip_eth, info.port) ∷ [], pause_for len (get_throughput client_id bs_id c.bs_stats_tbl))

  unfoldable pub forward :
      NodeId → ℕ → WspaceController W → (List (List ℕ × ℕ) × ℤ) × WspaceController W
  unfolding find_route destined
  forward client_id len c =
      let (found, t) = find_route client_id c.routing_tbl in
      (
        destined (is_duplication c.scheduling_mode) found client_id len c,
        record c { routing_tbl = t },
      )
