-- ===== src/Tests/Turns.antt =====
-- The controller of two stations and one client, through reports, routes and packets.
use wspace_controller.Prelude.{◌≡◌, refl, List, [], ◌∷◌, arith, Bool-cases, inl, inr}
use wspace_controller.Prelude.Int.{ℤ, pos, eqb_ℤ}
use wspace_controller.Prelude.Result.{ok}
use wspace_controller.Map.{Map, find, has, get_or, ◌=?◌}
use wspace_controller.NodeId.{NodeId, node_id_eq}
use wspace_controller.Double.{whole_double}
use wspace_controller.Routing.{RoutingTable, Table}
use wspace_controller.Routing.Laws.{whole-IsOrdered, BestSpec}
use wspace_controller.Routing.Choice.{RoutesSpec}
use wspace_controller.Controller.{WspaceController, compute_routes}
use wspace_controller.Controller.Wiring.{IsWired}
use wspace_controller.Controller.Receive.{stats, ack}
use wspace_controller.Controller.Split.{AreRouted, HasUniqueRows}
use wspace_controller.Controller.Turns.{RoundSpec}
use wspace_controller.Controller.Safety.{compute_routes_lem}
use wspace_controller.Controller.Runs.{
  Turn, hears, reads, routes, forwards, turn, turns, RunSpec, turns-IsWired,
}
use wspace_controller.Tests.Configs.{
  wired, wired-IsWired, wired-IsServed, tunnel_packet, tunnel_packet-IsIpPacket, takes_all,
}
use wspace_controller.Tests.Packets.{some_inet_ntoa}

-- The client is routed to station 3.
abbrev routed : WspaceController ℤ
routed = record wired { routing_tbl = record wired.routing_tbl { route = (pos 5, pos 3) ∷ [] } }

abbrev rates : Map NodeId ℤ
rates = (pos 5, pos 8) ∷ []

rates_routed : AreRouted rates routed
unfolding has find
rates_routed id h = elim (Bool-cases (pos 5 =? id)) [
  | inl y ↦ (pos 3, rw y refl)
  | inr n ↦ cc (rw n at h)
]

no_rows : HasUniqueRows {W = ℤ} []
unfolding get_or find
no_rows k = tt

abbrev no_answer : Table ℤ → List NodeId
no_answer t = []

compute_routes_lem_example :
    (c' : WspaceController ℤ) × (t : RoutingTable ℤ) × (rates' : Map NodeId ℤ) × (compute_routes
        no_answer wired
      ≡ ok c')
    × RoutesSpec (BestSpec wired.bs_stats_tbl (pos 2)) wired.routing_tbl t rates'
    × RoundSpec t rates' wired c'
    × IsWired c'
compute_routes_lem_example =
    compute_routes_lem whole-IsOrdered no_answer wired (pos 2) (pos 3 ∷ []) tt refl wired-IsWired

abbrev seven_turns : List (Turn ℤ)
seven_turns =
    reads tunnel_packet
    ∷ hears (stats (record { seq = 1; bs_id = pos 3; client_id = pos 5; throughput = pos 8 }))
    ∷ hears (ack (pos 3) (4 ∷ []))
    ∷ routes
    ∷ forwards (pos 3)
    ∷ reads tunnel_packet
    ∷ routes
    ∷ []

turns-IsWired_example :
    RunSpec takes_all 8
      (turn takes_all 8 some_inet_ntoa 4 (λ id n bytes. 1 ∷ bytes) no_answer)
      seven_turns
      wired
      (turns takes_all 8 some_inet_ntoa 4 (λ id n bytes. 1 ∷ bytes) no_answer seven_turns wired)
unfolding has eqb_ℤ
turns-IsWired_example =
    turns-IsWired whole-IsOrdered takes_all 8 some_inet_ntoa 4 (λ id n bytes. 1 ∷ bytes) no_answer
      (λ a b c d ha hb hc hd. refl) refl (λ id n bytes. omega arith) seven_turns wired tt
      (tunnel_packet-IsIpPacket, (tt, (refl, (refl, (tunnel_packet-IsIpPacket, tt))))) wired-IsWired
      wired-IsServed
