-- ===== src/Buffer/Laws.antt =====
-- The ring of slots works as a queue of packets with consecutive sequence numbers.
use wspace_controller.Prelude.{
  ℕ, ◌+◌, ◌%◌, ◌^◌, ◌≤◌, ◌<◌, ◌≡◌, ◌≢◌, refl, sym, ap, true, List, ◌++◌, some, leb, ltb, ◌==◌,
  length, drop, arith, inl, inr, Bool-cases, lt→ltb, ltb→lt, ==-ne, subst,
}
use wspace_controller.Prelude.Result.{ok}
use wspace_controller.Word.{add32}
use wspace_controller.Buffer.{
  empty, occupied_new, occupied_outbound, new_buf, BookKeeping, TxDataBuf, buf_size, pkt_size,
  write, seq2_ind, is_full, is_empty, acquire_tail, acquire_curr, update_all_book_keeping,
  get_book_keeping,
}
use wspace_controller.Buffer.Packets.{
  is_status, fill_slot, enqueue_pkt, Dequeued, send, take_slot, dequeue_pkt,
}

-- The bookkeeping of the packet in place `i` of the sequence, before it is sent.
pub record IsFresh (k : BookKeeping) (i : ℕ) : Type 0 where
  pub status : k.status ≡ occupied_new
  pub seq : k.seq_num ≡ i + 1
  pub long : 0 < k.len
  pub short : k.len ≤ pkt_size

-- The pointers are in order and have not wrapped around, the packets from `curr_pt` to `tail_pt` wait,
-- and the other places of the window are free.
pub record IsValid (b : TxDataBuf) : Type 0 where
  pub head : b.head_pt ≤ b.curr_pt
  pub curr : b.curr_pt ≤ b.tail_pt
  pub tail : b.tail_pt ≤ b.head_pt + buf_size
  pub range : b.tail_pt + buf_size < 2 ^ 32
  pub fresh : (i : ℕ) → b.curr_pt ≤ i → i < b.tail_pt → IsFresh (b.book_keep_arr (i % buf_size)) i
  pub free :
      (i : ℕ)
      → b.tail_pt ≤ i
      → i < b.head_pt + buf_size
      → (b.book_keep_arr (i % buf_size)).status ≡ empty

-- Two places of one window have different slots.
pub window : (i j : ℕ) → i < j → j < i + buf_size → i % buf_size ≢ j % buf_size
window i j h k = omega arith

==_self : (n : ℕ) → (n == n) ≡ true
==_self n = ground arith

abbrev pub filled : ℕ → ℕ → List ℕ → TxDataBuf → TxDataBuf
filled index seq pkt b = record b {
  pkt_buf = write index (pkt ++ drop (length pkt) (b.pkt_buf index)) b.pkt_buf;
  book_keep_arr =
      write index
        (record (b.book_keep_arr index) {
          seq_num = seq;
          status = occupied_new;
          len = length pkt;
          num_retrans = b.num_retrans;
        })
        b.book_keep_arr;
}

fill_slot_lem :
    (index seq : ℕ) (pkt : List ℕ) (b : TxDataBuf)
    → index < buf_size
    → length pkt ≤ pkt_size
    → (b.book_keep_arr index).status ≡ empty
    → fill_slot index seq pkt b ≡ ok (filled index seq pkt b)
unfolding fill_slot update_all_book_keeping is_status
fill_slot_lem index seq pkt b h l e =
    let le : leb (length pkt) pkt_size ≡ true = ground arith in rw (le, e, lt→ltb index buf_size h)

unfoldable pub enqueued : List ℕ → TxDataBuf → TxDataBuf
enqueued pkt b =
    filled (b.tail_pt % buf_size) (b.tail_pt + 1) pkt (record b { tail_pt = b.tail_pt + 1 })

add32_small : (a b : ℕ) → a + b < 2 ^ 32 → add32 a b ≡ a + b
add32_small a b h = omega arith

acquire_tail_lem :
    (b : TxDataBuf)
    → b.head_pt ≤ b.tail_pt
    → b.tail_pt < b.head_pt + buf_size
    → b.tail_pt + 1 + buf_size < 2 ^ 32
    → acquire_tail b ≡ some (b.tail_pt % buf_size, record b { tail_pt = b.tail_pt + 1 })
unfolding acquire_tail is_full
acquire_tail_lem b o h r = rw (
  add32_small b.head_pt buf_size (omega arith),
  ==-ne (b.head_pt + buf_size) b.tail_pt (λ e. omega arith),
  add32_small b.tail_pt 1 (omega arith),
)

pub acquire_curr_lem :
    (b : TxDataBuf)
    → b.curr_pt < b.tail_pt
    → b.tail_pt + 1 < 2 ^ 32
    → acquire_curr b ≡ some (b.curr_pt % buf_size, record b { curr_pt = b.curr_pt + 1 })
unfolding acquire_curr is_empty
acquire_curr_lem b h r =
    rw (==-ne b.tail_pt b.curr_pt (λ e. omega arith), add32_small b.curr_pt 1 (omega arith))

pub write_self : {A : Type 0} → (i : ℕ) (a : A) (arr : ℕ → A) → write i a arr i ≡ a
write_self i a arr = rw (==_self i)

pub write-ne : {A : Type 0} → (i j : ℕ) (a : A) (arr : ℕ → A) → j ≢ i → write i a arr j ≡ arr j
write-ne i j a arr n = rw (==-ne j i n)

pub enqueued_run :
    (pkt : List ℕ) (b : TxDataBuf)
    → IsValid b
    → length pkt ≤ pkt_size
    → b.tail_pt < b.head_pt + buf_size
    → b.tail_pt + 1 + buf_size < 2 ^ 32
    → enqueue_pkt pkt b ≡ some (ok (enqueued pkt b))
unfolding enqueued enqueue_pkt
enqueued_run pkt b v m h r =
    let o : b.head_pt ≤ b.tail_pt = omega (arith, v.head, v.curr) in
    rw (
      enqueue_pkt,
      acquire_tail_lem b o h r,
      add32_small b.tail_pt 1 (omega arith),
      fill_slot_lem (b.tail_pt % buf_size) (b.tail_pt + 1) pkt
          (record b { tail_pt = b.tail_pt + 1 }) (omega arith) m (v.free b.tail_pt (omega arith) h),
    )

keep :
    (P : BookKeeping → Type 0) (b : TxDataBuf) (k : BookKeeping) (i at : ℕ)
    → (i % buf_size) ≢ (at % buf_size)
    → P (b.book_keep_arr (i % buf_size))
    → P (write (at % buf_size) k b.book_keep_arr (i % buf_size))
keep P b k i at n h = subst P (sym (write-ne (at % buf_size) (i % buf_size) k b.book_keep_arr n)) h

module _ (pkt : List ℕ) (b : TxDataBuf) (v : IsValid b) (l : 0 < length pkt)
    (m : length pkt ≤ pkt_size) (h : b.tail_pt < b.head_pt + buf_size) where
  enqueued_fresh :
      (i : ℕ)
      → b.curr_pt ≤ i
      → i < b.tail_pt + 1
      → IsFresh ((enqueued pkt b).book_keep_arr (i % buf_size)) i
  unfolding enqueued
  enqueued_fresh i c t = elim (Bool-cases (ltb i b.tail_pt)) [
    | inl e ↦
        let older : i < b.tail_pt = ltb→lt i b.tail_pt e in
        let near : b.tail_pt < i + buf_size = omega (arith, v.head) in
        keep (λ k. IsFresh k i) b _ i b.tail_pt (window i b.tail_pt older near) (v.fresh i c older)
    | inr e ↦
        let same : b.tail_pt ≡ i = ground arith in
        subst (λ n. IsFresh ((enqueued pkt b).book_keep_arr (n % buf_size)) n) same
          (subst (λ k. IsFresh k b.tail_pt)
            (sym (write_self (b.tail_pt % buf_size) _ b.book_keep_arr))
            (record { status = refl; seq = refl; long = l; short = m }))
  ]

  pub enqueued-IsValid : b.tail_pt + 1 + buf_size < 2 ^ 32 → IsValid (enqueued pkt b)
  unfolding enqueued
  enqueued-IsValid r = record {
    head = v.head;
    curr = omega (arith, v.curr);
    tail = omega arith;
    range = r;
    fresh = enqueued_fresh;
    free = λ i t e.
        keep (λ k. k.status ≡ empty) b _ i b.tail_pt
          (λ q. window b.tail_pt i (omega arith) (omega (arith, v.head, v.curr)) (sym q))
          (v.free i (omega arith) e);
  }

-- While the window has room and the counters have not come near the largest number, `EnqueuePkt` of a
-- packet that fits in a slot ends without waiting, gives a valid buffer again with one more packet,
-- whose slot begins with the packet's bytes.
pub enqueue_pkt_lem :
    (pkt : List ℕ) (b : TxDataBuf)
    → IsValid b
    → 0 < length pkt
    → length pkt ≤ pkt_size
    → b.tail_pt < b.head_pt + buf_size
    → b.tail_pt + 1 + buf_size < 2 ^ 32
    → (b' : TxDataBuf) × (enqueue_pkt pkt b ≡ some (ok b'))
      × IsValid b'
      × (b'.tail_pt ≡ b.tail_pt + 1)
      × (b'.curr_pt ≡ b.curr_pt)
      × (b'.pkt_buf (b.tail_pt % buf_size)
          ≡ pkt ++ drop (length pkt) (b.pkt_buf (b.tail_pt % buf_size)))
unfolding enqueue_pkt enqueued
enqueue_pkt_lem pkt b v l m h r = (
  enqueued pkt b,
  enqueued_run pkt b v m h r,
  enqueued-IsValid pkt b v l m h r,
  refl,
  refl,
  write_self (b.tail_pt % buf_size) _ b.pkt_buf,
)

unfoldable pub dequeued : ℕ → TxDataBuf → Dequeued × TxDataBuf
dequeued now b =
    let k = b.book_keep_arr (b.curr_pt % buf_size) in
    send now (b.curr_pt % buf_size) k.num_retrans k (record b { curr_pt = b.curr_pt + 1 })

take_fresh :
    (now index i : ℕ) (b : TxDataBuf)
    → index < buf_size
    → IsFresh (b.book_keep_arr index) i
    → take_slot now index b
      ≡ ok (send now index (b.book_keep_arr index).num_retrans (b.book_keep_arr index) b)
unfolding take_slot get_book_keeping
take_fresh now index i b h f =
    let pos : ltb 0 ((b.book_keep_arr index).seq_num) ≡ true = lt→ltb 0 _ (omega (arith, f.seq)) in
    let fits : leb ((b.book_keep_arr index).len) pkt_size ≡ true = ground (arith, f.short) in
    simp (lt→ltb index buf_size h, f.status, lt→ltb 0 _ f.long, fits, pos)

pub dequeued_run :
    (now : ℕ) (b : TxDataBuf)
    → IsValid b
    → b.curr_pt < b.tail_pt
    → dequeue_pkt now b ≡ some (ok (dequeued now b))
unfolding dequeued dequeue_pkt
dequeued_run now b v h = rw (
  dequeue_pkt,
  acquire_curr_lem b h (omega (arith, v.range)),
  take_fresh now (b.curr_pt % buf_size) b.curr_pt (record b { curr_pt = b.curr_pt + 1 })
      (omega arith) (v.fresh b.curr_pt (omega arith) h),
)

pub dequeued-IsValid :
    (now : ℕ) (b : TxDataBuf) → IsValid b → b.curr_pt < b.tail_pt → IsValid ((dequeued now b).1)
unfolding dequeued
dequeued-IsValid now b v h = record {
  head = omega (arith, v.head);
  curr = omega arith;
  tail = v.tail;
  range = v.range;
  fresh = λ i c t.
      keep (λ k. IsFresh k i) b _ i b.curr_pt
        (λ q. window b.curr_pt i (omega arith) (omega (arith, v.head, v.tail)) (sym q))
        (v.fresh i (omega arith) t);
  free = λ i t e.
      keep (λ k. k.status ≡ empty) b _ i b.curr_pt
        (λ q. window b.curr_pt i (omega arith) (omega (arith, v.head)) (sym q)) (v.free i t e);
}

-- From a valid buffer where packets wait, `DequeuePkt` ends without waiting: it gives the number of the
-- oldest of them, which is one above the count of those before it, with the bytes of its slot and all
-- its retransmissions, marks the slot as sent, and the buffer is valid again with one packet less.
pub dequeue_pkt_lem :
    (now : ℕ) (b : TxDataBuf)
    → IsValid b
    → b.curr_pt < b.tail_pt
    → (d : Dequeued) × (b' : TxDataBuf) × (dequeue_pkt now b ≡ some (ok (d, b')))
      × (d.book.seq_num ≡ b.curr_pt + 1)
      × (d.buf ≡ some (b.pkt_buf (b.curr_pt % buf_size)))
      × ((b'.book_keep_arr (b.curr_pt % buf_size)).status ≡ occupied_outbound)
      × IsValid b'
      × (b'.curr_pt ≡ b.curr_pt + 1)
      × (b'.tail_pt ≡ b.tail_pt)
unfolding dequeued
dequeue_pkt_lem now b v h =
    let f = v.fresh b.curr_pt (omega arith) h in
    (
      (dequeued now b).0,
      (dequeued now b).1,
      dequeued_run now b v h,
      f.seq,
      refl,
      ap (λ k. k.status) (write_self (b.curr_pt % buf_size) _ b.book_keep_arr),
      dequeued-IsValid now b v h,
      refl,
      refl,
    )

-- Until the counter wraps around, the packet that the next `EnqueuePkt` numbers is found by `Seq2Ind`
-- in the slot that `EnqueuePkt` fills.
pub seq2_ind_lem :
    (b : TxDataBuf) → b.tail_pt + 1 < 2 ^ 32 → seq2_ind (add32 b.tail_pt 1) ≡ b.tail_pt % buf_size
unfolding seq2_ind
seq2_ind_lem b h = omega arith

-- A fresh buffer is valid.
pub new_buf-IsValid : (now : ℕ) → IsValid (new_buf now)
unfolding new_buf
new_buf-IsValid now = record {
  head = omega arith;
  curr = omega arith;
  tail = omega arith;
  range = omega arith;
  fresh = λ i c t. absurd (omega arith);
  free = λ i t e. refl;
}
