-- ===== src/NodeId.antt =====
-- The ids of base stations, clients and contention domains: `int` values that are only compared.
use wspace_controller.Prelude.Int.{ℤ, eqb_ℤ, eqb_ℤ_iff}
use wspace_controller.Map.{Eq}

abbrev pub NodeId : Type 0
NodeId = ℤ

instance abbrev pub node_id_eq : Eq ℤ
node_id_eq = record { test = eqb_ℤ; test_iff = eqb_ℤ_iff }
