-- ===== src/Config/Serving.antt =====
-- That the threads of main find a controller that can serve every client, from the command line on.
use wspace_controller.Prelude.{ℕ, ◌≡◌, ap, subst, true, List, [], ◌∙◌}
use wspace_controller.Prelude.Int.{ℤ}
use wspace_controller.Prelude.Result.{ok}
use wspace_controller.Map.{Map, has, has_elem}
use wspace_controller.Map.Every.{IsEvery-find}
use wspace_controller.NodeId.{NodeId, node_id_eq}
use wspace_controller.Double.{Double}
use wspace_controller.Scheduler.Start.{new_scheduler-stats}
use wspace_controller.Routing.{RoutingTable, min_throughput}
use wspace_controller.Controller.{WspaceController}
use wspace_controller.Controller.Serving.{IsServed}
use wspace_controller.Config.{Config, Opt}
use wspace_controller.Config.Build.{construct, empty_table}
use wspace_controller.Config.Domains.{
  add_schedulers-IsEvery, constructed, construct-IsBuilt, init-parts,
}

-- Each client that is given has an address.
abbrev pub HasAddresses : Config → Type 0
HasAddresses c = (id : NodeId) → has_elem id c.client_ids ≡ true → has id c.client_ip_tbl ≡ true

module _ {W : Type 0} ⦃d : Double W⦄ where
  constructed-IsServed :
      (c : Config) (g : Map NodeId NodeId) (u : RoutingTable W)
      → HasAddresses c
      → IsServed (constructed c g (record u { bs_ids = c.bs_ids; client_ids = c.client_ids }))
  constructed-IsServed c g u given = record {
    addressed = λ id h. given id h;
    listed = λ k id s f h.
        IsEvery-find _ k s _
          (add_schedulers-IsEvery
            (λ t. (i : NodeId) → has i t.stats ≡ true → has_elem i c.client_ids ≡ true) c g []
            (λ i.
              new_scheduler-stats min_throughput c.client_ids 1000 c.round_interval c.fairness_mode
                i)
            tt)
          f id h;
  }

  pub construct-IsServed :
      (to_string : ℤ → List ℕ) (sock : ℤ) (opts : List Opt) (lines : List (List ℕ))
      (s : WspaceController W) (c : Config)
      → construct to_string sock opts lines ≡ ok (s, c)
      → HasAddresses c
      → IsServed s
  construct-IsServed to_string sock opts lines s c run given =
      let b = construct-IsBuilt to_string sock opts lines s c run in
      let (u, added, same) =
        init-parts to_string sock c.bs_ip_tbl c.bs_ids c.client_ids empty_table b.table b.made in
      subst IsServed (ap (constructed c b.graph) same ∙ b.result)
        (constructed-IsServed c b.graph u given)
