-- ===== src/Buffer.antt =====
-- `BasicBuf` and `TxDataBuf` of wspace_asym_util.h and wspace_asym_util.cc: a ring of slots for packets,
-- with its bookkeeping. A wait for a signal is `none`; `now` is what the clock reads in a call. Each
-- operation runs under the buffer's lock or the slot's.
pub mod Packets
pub mod Laws
pub mod Access
pub mod Fifo
use wspace_controller.Prelude.{
  ℕ, ◌+◌, ◌-◌, ◌%◌, ◌^◌, ◌<◌, Bool, true, false, ◌&&◌, ◌||◌, List, [], ◌∷◌, ◌++◌, Option, none,
  some, leb, ltb, ◌==◌, if◌then◌else◌, length, drop,
}
use wspace_controller.Prelude.Result.{
  Result, ok, err, ◌>>=◌, ◌>>◌, guard, assert_failed, exited, undefined,
}
use wspace_controller.Word.{u32, add32, sub32}

pub data Status : Type 0 where
  empty occupied_new occupied_retrans occupied_outbound : Status

-- `BookKeeping`. The durations stored are whole numbers of microseconds.
pub record BookKeeping : Type 0 where
  pub seq_num : ℕ
  pub status : Status
  pub len : ℕ
  pub num_retrans : ℕ
  pub timestamp : ℕ
  pub rate : ℕ
  pub num_dups : ℕ
  pub batch_duration : ℕ

-- The arrays are functions of the index.
pub record TxDataBuf : Type 0 where
  pub head_pt : ℕ
  pub tail_pt : ℕ
  pub curr_pt : ℕ
  pub num_retrans : ℕ
  pub book_keep_arr : ℕ → BookKeeping
  pub pkt_buf : ℕ → List ℕ

-- `BUF_SIZE`, which `kSize` is too.
abbrev pub buf_size : ℕ
buf_size = 5000

-- `PKT_SIZE`.
abbrev pub pkt_size : ℕ
pkt_size = 1472

-- The constructor, with all timestamps read at `now`, and the fields that it leaves unset as 0.
unfoldable pub new_buf : ℕ → TxDataBuf
new_buf now = record {
  head_pt = 0;
  tail_pt = 0;
  curr_pt = 0;
  num_retrans = 0;
  book_keep_arr = λ i. record {
    seq_num = 0;
    status = empty;
    len = 0;
    num_retrans = 0;
    timestamp = now;
    rate = 0;
    num_dups = 0;
    batch_duration = 0;
  };
  pkt_buf = λ i. [];
}

-- A write to one place of an array.
abbrev pub write : {A : Type 0} → ℕ → A → (ℕ → A) → ℕ → A
write i a arr j = if j == i then a else arr j

-- The check at the head of every access.
abbrev pub check_index : ℕ → Result (Unit {0})
check_index index = guard (ltb index buf_size) exited

-- `Seq2Ind`.
unfoldable pub seq2_ind : ℕ → ℕ
seq2_ind seq = sub32 seq 1 % buf_size

unfoldable pub is_full : TxDataBuf → Bool
is_full b = add32 b.head_pt buf_size == b.tail_pt

-- `BasicBuf::IsEmpty`.
unfoldable is_basic_empty : TxDataBuf → Bool
is_basic_empty b = b.tail_pt == b.head_pt

-- `TxDataBuf::IsEmpty`.
unfoldable pub is_empty : TxDataBuf → Bool
is_empty b = b.tail_pt == b.curr_pt

-- `AcquireHeadLock`.
unfoldable acquire_head : TxDataBuf → Option (ℕ × TxDataBuf)
unfolding is_basic_empty
acquire_head b =
    if is_basic_empty b
    then none
    else some (b.head_pt % buf_size, record b { head_pt = add32 b.head_pt 1 })

-- `RxRcvBuf::AcquireHeadLock`, which leaves the head where it is: the index and the head.
unfoldable acquire_rx_head : TxDataBuf → Option (ℕ × ℕ)
unfolding is_basic_empty
acquire_rx_head b = if is_basic_empty b then none else some (b.head_pt % buf_size, b.head_pt)

-- `AcquireTailLock`.
unfoldable pub acquire_tail : TxDataBuf → Option (ℕ × TxDataBuf)
unfolding is_full
acquire_tail b =
    if is_full b
    then none
    else some (b.tail_pt % buf_size, record b { tail_pt = add32 b.tail_pt 1 })

-- `AcquireCurrLock`, both: with a time to wait, `none` is the timeout.
unfoldable pub acquire_curr : TxDataBuf → Option (ℕ × TxDataBuf)
unfolding is_empty
acquire_curr b =
    if is_empty b
    then none
    else some (b.curr_pt % buf_size, record b { curr_pt = add32 b.curr_pt 1 })

abbrev pub write_book : ℕ → BookKeeping → TxDataBuf → TxDataBuf
write_book index k b = record b { book_keep_arr = write index k b.book_keep_arr }

-- `UpdateBookKeeping` with four arguments.
unfoldable update_book_keeping : ℕ → ℕ → Status → ℕ → TxDataBuf → Result TxDataBuf
update_book_keeping index seq status len b =
    check_index index
    >> ok (
        write_book index
          (record (b.book_keep_arr index) { seq_num = seq; status = status; len = len }) b)

-- `UpdateBookKeeping` with six arguments; the last is what the clock reads, if the timestamp is updated.
unfoldable pub update_all_book_keeping :
    ℕ → ℕ → Status → ℕ → ℕ → Option ℕ → TxDataBuf → Result TxDataBuf
update_all_book_keeping index seq status len num clock b =
    let k = b.book_keep_arr index in
    let stamp : ℕ = (elim clock [ none ↦ k.timestamp | some now ↦ now ]) in
    check_index index
    >> ok (
        write_book index
          (record k {
            seq_num = seq;
            status = status;
            len = len;
            num_retrans = num;
            timestamp = stamp;
          })
          b)

-- `GetBookKeeping`: the caller takes the fields that it asks for.
unfoldable pub get_book_keeping : ℕ → TxDataBuf → Result BookKeeping
get_book_keeping index b = check_index index >> ok (b.book_keep_arr index)

unfoldable update_rate_in_book_keeping : ℕ → ℕ → TxDataBuf → Result TxDataBuf
update_rate_in_book_keeping index rate b =
    check_index index >> ok (write_book index (record (b.book_keep_arr index) { rate = rate }) b)

-- `GetRateFromBookKeeping`: what it gives as the rate, cut to its type, and the length.
unfoldable get_rate_from_book_keeping : ℕ → TxDataBuf → Result (ℕ × ℕ)
get_rate_from_book_keeping index b =
    check_index index >> ok ((b.book_keep_arr index).seq_num % 2 ^ 16, (b.book_keep_arr index).len)
