-- ===== src/Scheduler/Queue.antt =====
-- `PktQueue` of packet_scheduler.h and packet_scheduler.cc. A buffer made by `new` and filled by
-- `memcpy` is the list of its bytes. Each method runs under the queue's own lock, so it is one step.
pub mod Laws
use wspace_controller.Prelude.{
  ℕ, ◌≡◌, Bool, true, false, List, [], ◌∷◌, ◌++◌, leb, ◌==◌, if◌then◌else◌, length, take,
}
use wspace_controller.Prelude.Result.{Result, ok, err, Fault, exited, assert_failed}

-- `pair<char*, uint16_t>`.
pub record Packet : Type 0 where
  pub bytes : List ℕ
  pub len : ℕ

-- `q_` and `kMaxSize`; the oldest packet comes first.
pub record PktQueue : Type 0 where
  pub max_size : ℕ
  pub packets : List Packet

unfoldable pub new_queue : ℕ → PktQueue
new_queue max_size = record { max_size = max_size; packets = [] }

unfoldable pub get_length : PktQueue → ℕ
get_length q = length q.packets

unfoldable pub is_full : PktQueue → Bool
unfolding get_length
is_full q = get_length q == q.max_size

unfoldable pub clear : PktQueue → PktQueue
clear q = record q { packets = [] }

-- The result tells whether the packet was stored. A length of 0 ends the program.
unfoldable pub enqueue : List ℕ → ℕ → PktQueue → Result (Bool × PktQueue)
unfolding is_full
enqueue pkt len q =
    if leb len 0
    then err exited
    else if is_full q
    then ok (false, q)
    else ok
        (true, record q { packets = q.packets ++ record { bytes = take len pkt; len = len } ∷ [] })

-- The assertion asks for a packet in the queue.
unfoldable pub dequeue : PktQueue → Result (Packet × PktQueue)
dequeue q = elim q.packets [
  | [] ↦ err assert_failed
  | p ∷ rest ↦ ok (p, record q { packets = rest })
]

-- The length of the oldest packet, or 0.
unfoldable pub peek_top_pkt_size : PktQueue → ℕ
peek_top_pkt_size q = elim q.packets [ [] ↦ 0 | p ∷ rest ↦ p.len ]
