-- ===== src/Scheduler/Active.antt =====
-- `ActiveList` of packet_scheduler.h and packet_scheduler.cc: the clients that wait for service, in
-- order, and a set of the same ids for quick tests. Each method runs under the list's lock.
pub mod Laws
use wspace_controller.Prelude.{◌≡◌, List, [], ◌∷◌, ◌++◌, Option, none, some, if◌then◌else◌}
use wspace_controller.Map.{Eq, ◌=?◌, has_elem}
use wspace_controller.NodeId.{NodeId, node_id_eq}

pub record ActiveList : Type 0 where
  pub ids : List NodeId
  pub exist : List NodeId

unfoldable pub empty : ActiveList
empty = record { ids = []; exist = [] }

-- `exist_.erase (id)`.
unfoldable pub erase_id : NodeId → List NodeId → List NodeId
erase_id k [] = []
erase_id k (x ∷ xs) = let rest = erase_id k xs in if x =? k then rest else x ∷ rest

unfoldable pub append : NodeId → ActiveList → ActiveList
append id l =
    if has_elem id l.exist then l else record l { ids = l.ids ++ id ∷ []; exist = id ∷ l.exist }

-- `none`: the list is empty, and the caller sleeps until an id is appended.
unfoldable pub remove : ActiveList → Option (NodeId × ActiveList)
unfolding erase_id
remove l = elim l.ids [
  | [] ↦ none
  | id ∷ rest ↦ some (id, record l { ids = rest; exist = erase_id id l.exist })
]
