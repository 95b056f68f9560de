-- ===== src/Buffer/Access.antt =====
-- The accessors of `BasicBuf` and `TxDataBuf` in wspace_asym_util.h, and the other `GetBookKeeping` and
-- `GetNumDups` of wspace_asym_util.cc. A reference that a method returns is a read and, in `set_element`,
-- a write of a field by the caller.
use wspace_controller.Prelude.{
  ℕ, zero, suc, ◌%◌, ◌<◌, ◌≤◌, ◌≡◌, ◌≢◌, refl, ap, Bool, true, ◌&&◌, List, [], ◌∷◌, ◌++◌, Option,
  none, some, arith, leb, ◌==◌, ==-ne, lt→ltb, ge→ltb, if◌then◌else◌, length, take, drop,
}
use wspace_controller.Prelude.Result.{Result, ok, err, ◌>>◌, guard, exited, undefined}
use wspace_controller.Word.{add32}
use wspace_controller.Buffer.{
  Status, BookKeeping, TxDataBuf, buf_size, pkt_size, write, check_index, write_book,
}

unfoldable head_pt_mod : TxDataBuf → ℕ
head_pt_mod b = b.head_pt % buf_size

unfoldable tail_pt_mod : TxDataBuf → ℕ
tail_pt_mod b = b.tail_pt % buf_size

unfoldable curr_pt_mod : TxDataBuf → ℕ
curr_pt_mod b = b.curr_pt % buf_size

unfoldable set_head_pt : ℕ → TxDataBuf → TxDataBuf
set_head_pt head_pt b = record b { head_pt = head_pt }

unfoldable set_tail_pt : ℕ → TxDataBuf → TxDataBuf
set_tail_pt tail_pt b = record b { tail_pt = tail_pt }

unfoldable set_curr_pt : ℕ → TxDataBuf → TxDataBuf
set_curr_pt curr_pt b = record b { curr_pt = curr_pt }

unfoldable increment_head_pt : TxDataBuf → TxDataBuf
increment_head_pt b = record b { head_pt = add32 b.head_pt 1 }

unfoldable increment_tail_pt : TxDataBuf → TxDataBuf
increment_tail_pt b = record b { tail_pt = add32 b.tail_pt 1 }

unfoldable increment_curr_pt : TxDataBuf → TxDataBuf
increment_curr_pt b = record b { curr_pt = add32 b.curr_pt 1 }

unfoldable set_num_retrans : ℕ → TxDataBuf → TxDataBuf
set_num_retrans num_retrans b = record b { num_retrans = num_retrans }

-- `GetPktBufAddr`: the slot at the address.
unfoldable get_pkt_buf : ℕ → TxDataBuf → Result (List ℕ)
get_pkt_buf index b = check_index index >> ok (b.pkt_buf index)

-- `StorePkt` copies `len` bytes from the start of `pkt`. More than `pkt` or a slot has are undefined.
unfoldable pub store_pkt : ℕ → ℕ → List ℕ → TxDataBuf → Result TxDataBuf
store_pkt index len pkt b =
    check_index index
    >> guard (leb len pkt_size && leb len (length pkt)) undefined
    >> ok
        (record b { pkt_buf = write index (take len pkt ++ drop len (b.pkt_buf index)) b.pkt_buf })

-- `GetPkt` copies `len` bytes from the slot.
unfoldable pub get_pkt : ℕ → ℕ → TxDataBuf → Result (List ℕ)
get_pkt index len b =
    check_index index >> guard (leb len pkt_size) undefined >> ok (take len (b.pkt_buf index))

-- `GetBookKeeping` with six arguments: the sequence number, the status, the length, the retransmissions
-- left, and the timestamp if the caller asks for it.
unfoldable get_all_book_keeping : ℕ → Bool → TxDataBuf → Result (ℕ × Status × ℕ × ℕ × Option ℕ)
get_all_book_keeping index is_asked b =
    let k = b.book_keep_arr index in
    check_index index
    >> ok (k.seq_num, k.status, k.len, k.num_retrans, if is_asked then some k.timestamp else none)

unfoldable get_num_dups : ℕ → TxDataBuf → Result ℕ
get_num_dups index b = check_index index >> ok (b.book_keep_arr index).num_dups

unfoldable pub get_element_status : ℕ → TxDataBuf → Result Status
get_element_status index b = check_index index >> ok (b.book_keep_arr index).status

unfoldable get_element_seq_num : ℕ → TxDataBuf → Result ℕ
get_element_seq_num index b = check_index index >> ok (b.book_keep_arr index).seq_num

unfoldable get_element_len : ℕ → TxDataBuf → Result ℕ
get_element_len index b = check_index index >> ok (b.book_keep_arr index).len

unfoldable get_element_num_retrans : ℕ → TxDataBuf → Result ℕ
get_element_num_retrans index b = check_index index >> ok (b.book_keep_arr index).num_retrans

unfoldable get_element_time_stamp : ℕ → TxDataBuf → Result ℕ
get_element_time_stamp index b = check_index index >> ok (b.book_keep_arr index).timestamp

unfoldable get_element_batch_duration : ℕ → TxDataBuf → Result ℕ
get_element_batch_duration index b = check_index index >> ok (b.book_keep_arr index).batch_duration

unfoldable pub set_element : ℕ → (BookKeeping → BookKeeping) → TxDataBuf → Result TxDataBuf
set_element index change b =
    check_index index >> ok (write_book index (change (b.book_keep_arr index)) b)

take-append : (xs ys : List ℕ) (n : ℕ) → n ≤ length xs → take n (take n xs ++ ys) ≡ take n xs
take-append xs ys zero h = refl
take-append [] ys (suc n) h = absurd (omega arith)
take-append (x ∷ xs) ys (suc n) h = ap (◌∷◌ x) (take-append xs ys n (omega arith))

-- What another call reads of a packet that is stored: the same slot gives the bytes back, any other slot
-- and the bookkeeping are as before.
pub record IsStored (index len : ℕ) (pkt : List ℕ) (b b' : TxDataBuf) : Type 0 where
  pub same : get_pkt index len b' ≡ ok (take len pkt)
  pub others : (i n : ℕ) → i ≢ index → get_pkt i n b' ≡ get_pkt i n b
  pub books : (i : ℕ) → get_element_status i b' ≡ get_element_status i b

-- `StorePkt` of up to 1472 bytes that `pkt` has, and `GetPkt`: at an index below 5000 the store returns
-- and `GetPkt` then gives the bytes back, the other slots and the status of all slots stay; at a larger
-- index both calls end the program.
pub get_pkt-store_pkt :
    (index len : ℕ) (pkt : List ℕ) (b : TxDataBuf)
    → len ≤ pkt_size
    → len ≤ length pkt
    → (index < buf_size
        → (b' : TxDataBuf) × (store_pkt index len pkt b ≡ ok b') × IsStored index len pkt b b')
      × (buf_size ≤ index
          → (store_pkt index len pkt b ≡ err exited) × (get_pkt index len b ≡ err exited))
unfolding store_pkt get_pkt get_element_status
get_pkt-store_pkt index len pkt b fits has =
    let slot : leb len 1472 ≡ true = ground arith in
    let bytes : leb len (length pkt) ≡ true = ground arith in
    let self : (index == index) ≡ true = ground arith in
    (
      λ low.
          let inside = lt→ltb index buf_size low in
          (
            record b {
              pkt_buf = write index (take len pkt ++ drop len (b.pkt_buf index)) b.pkt_buf;
            },
            rw (inside, slot, bytes) refl,
            record {
              same = rw (inside, slot, self) (ap ok (take-append pkt _ len has));
              others = λ i n h. rw (==-ne i index h) refl;
              books = λ i. refl;
            },
          ),
      λ high. let outside = ge→ltb index buf_size high in (rw outside refl, rw outside refl),
    )
