-- ===== src/Tests/Strangers.antt =====
-- An ack of a station that the controller has, and one of a station that it does not have.
use wspace_controller.Prelude.{◌≡◌, refl, List, [], ◌∷◌, length, arith}
use wspace_controller.Prelude.Int.{ℤ, pos, negsuc, eqb_ℤ}
use wspace_controller.Prelude.Result.{err, assert_failed}
use wspace_controller.Map.{has}
use wspace_controller.NodeId.{node_id_eq}
use wspace_controller.Double.{whole_double}
use wspace_controller.Controller.{WspaceController}
use wspace_controller.Controller.Wiring.{IsWired, IsSameSetup}
use wspace_controller.Controller.Receive.{ack, recv_from_bs, IsDelivered}
use wspace_controller.Controller.Writing.{Sent, System, WriteSpec}
use wspace_controller.Controller.Stations.{recv_from_bs_lem, stranger_lem}
use wspace_controller.Tests.Configs.{wired, wired-IsWired, takes_all}

recv_from_bs_lem_example :
    (sent : List Sent) × (c' : WspaceController ℤ) × WriteSpec takes_all sent
      (sent, c')
      (recv_from_bs takes_all 2 (ack (pos 3) (5 ∷ [])) wired)
    × IsDelivered 2 (ack (pos 3) (5 ∷ [])) wired sent
    × IsWired c'
    × IsSameSetup wired c'
unfolding has eqb_ℤ
recv_from_bs_lem_example =
    recv_from_bs_lem takes_all 2 (ack (pos 3) (5 ∷ [])) wired refl wired-IsWired

-- The system takes all bytes, and returns an error for the empty address.
abbrev refuses_empty : System
refuses_empty = record {
  on_tunnel = λ bytes. pos (length bytes);
  on_socket = λ ip port bytes. elim ip [ [] ↦ negsuc 0 | x ∷ xs ↦ pos (length bytes) ];
}

stranger_lem_example : recv_from_bs refuses_empty 2 (ack (pos 9) (5 ∷ [])) wired ≡ err assert_failed
unfolding has eqb_ℤ
stranger_lem_example =
    stranger_lem refuses_empty 2 (ack (pos 9) (5 ∷ [])) wired (refl, refl, omega arith)
