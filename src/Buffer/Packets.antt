-- ===== src/Buffer/Packets.antt =====
-- The operations of `TxDataBuf` on packets, in wspace_asym_util.cc.
use wspace_controller.Prelude.{
  ℕ, ◌-◌, Bool, true, false, ◌&&◌, List, [], ◌∷◌, ◌++◌, Option, none, some, leb, ltb, length, drop,
}
use wspace_controller.Prelude.Result.{Result, ok, ◌>>=◌, ◌>>◌, guard, assert_failed, undefined}
use wspace_controller.Word.{add32}
use wspace_controller.Buffer.{
  Status, empty, occupied_new, occupied_retrans, occupied_outbound, BookKeeping, TxDataBuf,
  pkt_size, write, check_index, seq2_ind, acquire_tail, acquire_curr, write_book,
  update_all_book_keeping, get_book_keeping,
}

unfoldable pub is_status : Status → Status → Bool
is_status empty empty = true
is_status occupied_new occupied_new = true
is_status occupied_retrans occupied_retrans = true
is_status occupied_outbound occupied_outbound = true
is_status _ _ = false

-- What `EnqueuePkt` does once it has the slot. `pkt` is the `len` bytes that it copies; more than a slot
-- holds would be written past it.
unfoldable pub fill_slot : ℕ → ℕ → List ℕ → TxDataBuf → Result TxDataBuf
unfolding is_status update_all_book_keeping
fill_slot index seq pkt b =
    guard (leb (length pkt) pkt_size) undefined
    >> guard (is_status (b.book_keep_arr index).status empty) assert_failed
    >> update_all_book_keeping index seq occupied_new (length pkt) b.num_retrans none
        (record b { pkt_buf = write index (pkt ++ drop (length pkt) (b.pkt_buf index)) b.pkt_buf })

-- `EnqueuePkt`; `none` waits for room.
unfoldable pub enqueue_pkt : List ℕ → TxDataBuf → Option (Result TxDataBuf)
unfolding acquire_tail fill_slot
enqueue_pkt pkt b = elim (acquire_tail b) [
  | none ↦ none
  | some (index, b') ↦ some (fill_slot index (add32 b.tail_pt 1) pkt b')
]

-- What `DequeuePkt` gives: the bookkeeping that it read, and the packet's slot if it is to be sent.
pub record Dequeued : Type 0 where
  pub book : BookKeeping
  pub num_retrans : ℕ
  pub index : ℕ
  pub buf : Option (List ℕ)

-- The slot of a packet that goes out, with `num` retransmissions left.
abbrev pub sent : ℕ → ℕ → BookKeeping → BookKeeping
sent now num k = record k {
  num_retrans = num;
  status = occupied_outbound;
  timestamp = now;
  batch_duration = 0;
}

abbrev pub send : ℕ → ℕ → ℕ → BookKeeping → TxDataBuf → Dequeued × TxDataBuf
send now index num k b = (
  record { book = k; num_retrans = num; index = index; buf = some (b.pkt_buf index) },
  write_book index (sent now num k) b,
)

abbrev pub is_sound : BookKeeping → Bool
is_sound k = ltb 0 k.len && leb k.len pkt_size && ltb 0 k.seq_num

-- What `DequeuePkt` does with the slot that it has locked.
unfoldable pub take_slot : ℕ → ℕ → TxDataBuf → Result (Dequeued × TxDataBuf)
unfolding get_book_keeping
take_slot now index b = do
  k ← get_book_keeping index b
  elim k.status [
    | occupied_new ↦ guard (is_sound k) assert_failed >> ok (send now index k.num_retrans k b)
    | occupied_retrans ↦
        guard (is_sound k) assert_failed
        >> guard (ltb 0 k.num_retrans) assert_failed
        >> ok (send now index (k.num_retrans - 1) k b)
    | _ ↦ ok (record { book = k; num_retrans = k.num_retrans; index = index; buf = none }, b)
  ]

-- `DequeuePkt`; `none` is the timeout.
unfoldable pub dequeue_pkt : ℕ → TxDataBuf → Option (Result (Dequeued × TxDataBuf))
unfolding acquire_curr take_slot
dequeue_pkt now b = elim (acquire_curr b) [
  | none ↦ none
  | some (index, b') ↦ some (take_slot now index b')
]

unfoldable disable_retransmission : ℕ → TxDataBuf → Result TxDataBuf
disable_retransmission index b =
    check_index index
    >> ok (write_book index (record (b.book_keep_arr index) { num_retrans = 0 }) b)

-- `UpdateBatchSendTime`.
unfoldable update_batch_send_time : ℕ → ℕ → List ℕ → TxDataBuf → Result TxDataBuf
unfolding seq2_ind is_status
update_batch_send_time now duration [] b = ok b
update_batch_send_time now duration (seq ∷ seqs) b =
    let index = seq2_ind seq in
    let k = b.book_keep_arr index in
    guard (is_status k.status occupied_outbound) assert_failed
    >> update_batch_send_time now duration seqs
        (write_book index (record k { timestamp = now; batch_duration = duration }) b)
