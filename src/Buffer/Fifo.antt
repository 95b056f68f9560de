-- ===== src/Buffer/Fifo.antt =====
-- `TxDataBuf` as a queue: the packets that wait, as a list, and what `EnqueuePkt` and `DequeuePkt` do to it.
use wspace_controller.Prelude.{
  ℕ, suc, ◌+◌, ◌%◌, ◌^◌, ◌≤◌, ◌<◌, ◌≡◌, ◌≢◌, refl, sym, ap, subst, ◌∙◌, List, [], ◌∷◌, ◌++◌, none,
  some, length, take, drop, arith, Bool, true, false, ◌==◌, length-append, Bool-cases, inl, inr,
}
use wspace_controller.Prelude.Result.{ok}
use wspace_controller.Word.{add32}
use wspace_controller.Buffer.{
  TxDataBuf, buf_size, pkt_size, acquire_tail, acquire_curr, is_full, is_empty, new_buf,
}
use wspace_controller.Buffer.Packets.{enqueue_pkt, dequeue_pkt, Dequeued}
use wspace_controller.Buffer.Laws.{
  IsValid, window, write_self, write-ne, enqueued, enqueued_run, enqueued-IsValid, dequeued,
  dequeued_run, dequeued-IsValid, new_buf-IsValid,
}

-- A slot with the packet: its length, and its bytes at the start.
abbrev pub HasPkt : List ℕ → ℕ → TxDataBuf → Type 0
HasPkt pkt i b =
    ((b.book_keep_arr (i % buf_size)).len ≡ length pkt)
    × (take (length pkt) (b.pkt_buf (i % buf_size)) ≡ pkt)

-- The packets stand in the places from `i` on.
abbrev pub Holds : ℕ → List (List ℕ) → TxDataBuf → Type 0
Holds i [] b = Unit
Holds i (pkt ∷ pkts) b = HasPkt pkt i b × Holds (suc i) pkts b

-- A valid buffer in which these packets wait, oldest first.
pub record IsQueue (pkts : List (List ℕ)) (b : TxDataBuf) : Type 0 where
  pub valid : IsValid b
  pub count : b.tail_pt ≡ b.curr_pt + length pkts
  pub slots : Holds b.curr_pt pkts b

Holds-same :
    (i : ℕ) (pkts : List (List ℕ)) (b b' : TxDataBuf)
    → ((j : ℕ)
        → i ≤ j
        → j < i + length pkts
        → ((b'.book_keep_arr (j % buf_size)).len ≡ (b.book_keep_arr (j % buf_size)).len)
          × (b'.pkt_buf (j % buf_size) ≡ b.pkt_buf (j % buf_size)))
    → Holds i pkts b
    → Holds i pkts b'
Holds-same i [] b b' same h = tt
Holds-same i (pkt ∷ pkts) b b' same ((l, t), hs) =
    let (e, f) = same i (omega arith) (omega arith) in
    (
      (e ∙ l, ap (take (length pkt)) f ∙ t),
      Holds-same (suc i) pkts b b' (λ j p q. same j (omega arith) (omega arith)) hs,
    )

Holds-snoc :
    (i n : ℕ) (pkts : List (List ℕ)) (pkt : List ℕ) (b : TxDataBuf)
    → Holds i pkts b
    → n ≡ i + length pkts
    → HasPkt pkt n b
    → Holds i (pkts ++ pkt ∷ []) b
Holds-snoc i n [] pkt b h e p = (subst (λ k. HasPkt pkt k b) (omega (arith, e)) p, tt)
Holds-snoc i n (x ∷ pkts) pkt b (h, hs) e p =
    (h, Holds-snoc (suc i) n pkts pkt b hs (omega (arith, e)) p)

take-whole : (xs ys : List ℕ) → take (length xs) (xs ++ ys) ≡ xs
take-whole [] ys = refl
take-whole (x ∷ xs) ys = ap (◌∷◌ x) (take-whole xs ys)

-- `EnqueuePkt` on a queue with room: the packet is last.
enqueued-IsQueue :
    (pkt : List ℕ) (pkts : List (List ℕ)) (b : TxDataBuf)
    → IsQueue pkts b
    → 0 < length pkt
    → length pkt ≤ pkt_size
    → b.tail_pt < b.head_pt + buf_size
    → b.tail_pt + 1 + buf_size < 2 ^ 32
    → IsQueue (pkts ++ pkt ∷ []) (enqueued pkt b)
unfolding enqueued
enqueued-IsQueue pkt pkts b q l m h r =
    let v = q.valid in
    let at = b.tail_pt % buf_size in
    let b' = enqueued pkt b in
    let older : Holds b.curr_pt pkts b' =
      Holds-same b.curr_pt pkts b b'
        (λ j c t.
          let other : (j % buf_size) ≢ at =
            window j b.tail_pt (omega (arith, q.count)) (omega (arith, v.head)) in
          (
            ap (λ k. k.len) (write-ne at (j % buf_size) _ b.book_keep_arr other),
            write-ne at (j % buf_size) _ b.pkt_buf other,
          ))
        q.slots in
    let last : HasPkt pkt b.tail_pt b' = (
      ap (λ k. k.len) (write_self at _ b.book_keep_arr),
      ap (take (length pkt)) (write_self at _ b.pkt_buf)
          ∙ take-whole pkt (drop (length pkt) (b.pkt_buf at)),
    ) in
    record {
      valid = enqueued-IsValid pkt b v l m h r;
      count = omega (arith, q.count, length-append pkts (pkt ∷ []));
      slots = Holds-snoc b.curr_pt b.tail_pt pkts pkt b' older q.count last;
    }

dequeued-IsQueue :
    (now : ℕ) (pkt : List ℕ) (pkts : List (List ℕ)) (b : TxDataBuf)
    → IsQueue (pkt ∷ pkts) b
    → IsQueue pkts (dequeued now b).1
unfolding dequeued
dequeued-IsQueue now pkt pkts b q =
    let v = q.valid in
    let at = b.curr_pt % buf_size in
    let b' = (dequeued now b).1 in
    record {
      valid = dequeued-IsValid now b v (omega (arith, q.count));
      count = omega (arith, q.count);
      slots =
          subst (λ k. Holds k pkts b') (omega arith)
            (Holds-same (suc b.curr_pt) pkts b b'
              (λ j c t. (
                ap (λ k. k.len)
                    (write-ne at (j % buf_size) _ b.book_keep_arr (λ e.
                      window b.curr_pt j (omega arith) (omega (arith, q.count, v.head, v.tail))
                        (sym e))),
                refl,
              ))
              q.slots.1);
    }

-- A call of `EnqueuePkt`: it waits where the window is full, and puts the packet last where it is not.
unfoldable pub EnqueueSpec : Bool → List ℕ → List (List ℕ) → TxDataBuf → Type 0
EnqueueSpec true pkt pkts b = enqueue_pkt pkt b ≡ none
EnqueueSpec false pkt pkts b =
    (b' : TxDataBuf) × (enqueue_pkt pkt b ≡ some (ok b'))
    × IsQueue (pkts ++ pkt ∷ []) b'
    × (b'.head_pt ≡ b.head_pt)

-- A call of `DequeuePkt`: with no packet it times out; otherwise it gives the oldest.
pub DequeueSpec : ℕ → List (List ℕ) → TxDataBuf → Type 0
DequeueSpec now [] b = dequeue_pkt now b ≡ none
DequeueSpec now (pkt ∷ pkts) b =
    (d : Dequeued) × (b' : TxDataBuf) × (slot : List ℕ) × (dequeue_pkt now b ≡ some (ok (d, b')))
    × (d.buf ≡ some slot)
    × (take d.book.len slot ≡ pkt)
    × (d.book.seq_num ≡ b.curr_pt + 1)
    × IsQueue pkts b'
    × (b'.head_pt ≡ b.head_pt)

acquire_tail-none :
    (b : TxDataBuf) → (add32 b.head_pt buf_size == b.tail_pt) ≡ true → acquire_tail b ≡ none
unfolding acquire_tail is_full
acquire_tail-none b y = rw y refl

enqueue_pkt-none :
    (pkt : List ℕ) (b : TxDataBuf)
    → (add32 b.head_pt buf_size == b.tail_pt) ≡ true
    → enqueue_pkt pkt b ≡ none
unfolding enqueue_pkt
enqueue_pkt-none pkt b y = rw (enqueue_pkt, acquire_tail-none b y) refl

acquire_curr-none : (b : TxDataBuf) → b.tail_pt ≡ b.curr_pt → acquire_curr b ≡ none
unfolding acquire_curr is_empty
acquire_curr-none b e = let self : (b.tail_pt == b.curr_pt) ≡ true = ground arith in rw self refl

dequeue_pkt-none : (now : ℕ) (b : TxDataBuf) → b.tail_pt ≡ b.curr_pt → dequeue_pkt now b ≡ none
unfolding dequeue_pkt
dequeue_pkt-none now b e = rw (dequeue_pkt, acquire_curr-none b e) refl

-- On a buffer whose window is as it should be and whose counters have not come near 2 ^ 32, `EnqueuePkt` of
-- 1 to 1472 bytes puts the packet after those that wait; where 5000 places from the head on are taken
-- it waits, and changes nothing.
pub enqueue_pkt-IsQueue :
    (pkt : List ℕ) (pkts : List (List ℕ)) (b : TxDataBuf)
    → IsQueue pkts b
    → 0 < length pkt
    → length pkt ≤ pkt_size
    → b.tail_pt + 1 + buf_size < 2 ^ 32
    → EnqueueSpec (is_full b) pkt pkts b
unfolding is_full EnqueueSpec enqueued
enqueue_pkt-IsQueue pkt pkts b q l m r =
    let v = q.valid in
    let reach : add32 b.head_pt buf_size ≡ b.head_pt + buf_size = omega (arith, v.head, v.curr) in
    elim (Bool-cases (add32 b.head_pt buf_size == b.tail_pt)) [
      | inl y ↦ rw y (enqueue_pkt-none pkt b y)
      | inr n ↦
          let room : b.tail_pt < b.head_pt + buf_size =
            le_ne b.tail_pt (b.head_pt + buf_size) v.tail
              (ap (λ k. k == b.tail_pt) (sym reach) ∙ n) in
          rw n (
            enqueued pkt b,
            enqueued_run pkt b v m room r,
            enqueued-IsQueue pkt pkts b q l m room r,
            refl,
          )
    ]
  where
    le_ne : (t h : ℕ) → t ≤ h → (h == t) ≡ false → t < h
    le_ne t h l n = ground arith

-- On such a buffer `DequeuePkt` gives the oldest packet that waits: the bytes that were put in, in the slot
-- that it names and by the length that it names, and a number one above that of the packet before; the
-- others wait on. With no packet it times out.
pub dequeue_pkt-IsQueue :
    (now : ℕ) (pkts : List (List ℕ)) (b : TxDataBuf) → IsQueue pkts b → DequeueSpec now pkts b
unfolding DequeueSpec dequeued
dequeue_pkt-IsQueue now [] b q = dequeue_pkt-none now b (omega (arith, q.count))
dequeue_pkt-IsQueue now (pkt ∷ pkts) b q =
    let v = q.valid in
    let some_left : b.curr_pt < b.tail_pt = omega (arith, q.count) in
    let fresh = v.fresh b.curr_pt (omega arith) some_left in
    (
      (dequeued now b).0,
      (dequeued now b).1,
      b.pkt_buf (b.curr_pt % buf_size),
      dequeued_run now b v some_left,
      refl,
      ap (λ n. take n (b.pkt_buf (b.curr_pt % buf_size))) q.slots.0.0 ∙ q.slots.0.1,
      fresh.seq,
      dequeued-IsQueue now pkt pkts b q,
      refl,
    )

-- A new buffer is an empty queue.
pub new_buf-IsQueue : (now : ℕ) → IsQueue [] (new_buf now)
unfolding new_buf
new_buf-IsQueue now = record { valid = new_buf-IsValid now; count = omega arith; slots = tt }
