-- ===== src/RawBuf.antt =====
-- `TxRawBuf` of wspace_asym_util.h and wspace_asym_util.cc: the fate of each raw packet that a station
-- sent, by consecutive sequence numbers. The public methods run under the buffer's lock.
pub mod Fates
pub mod Acked
use wspace_controller.Prelude.{
  ℕ, zero, suc, ◌+◌, ◌-◌, ◌≡◌, Bool, true, false, List, [], ◌∷◌, ◌++◌, Option, none, some, ltb, leb,
  ◌==◌, if◌then◌else◌, length, get_elem?, set, take, drop, ◌^◌, ◌%◌,
}
use wspace_controller.Prelude.Int.{ℤ}
use wspace_controller.Prelude.Result.{Result, ok, err, ◌>>=◌, assert_failed, undefined}
use wspace_controller.Word.{add32, sub32}
use wspace_controller.Timer.{Timer}

pub data Fate : Type 0 where
  bad unknown good : Fate

-- `RawPktSendStatus`.
pub record RawPkt : Type 0 where
  pub seq : ℕ
  pub rate : ℕ
  pub len : ℕ
  pub fate : Fate
  pub send_time : Timer

-- `info_deq_`, oldest first.
abbrev pub Deq : Type 0
Deq = List RawPkt

-- `kMaxRawBufSize`.
abbrev max_buf_size : ℕ
max_buf_size = 4000

abbrev pub with_fate : Fate → RawPkt → RawPkt
with_fate f p = record p { fate = f }

-- `GetInd`. The difference is taken as an `int` and compared with `size ()` as an unsigned number, so
-- that one below 0 is out of range too; `none` is -1.
unfoldable pub get_ind : ℕ → Deq → Option ℕ
get_ind seq [] = none
get_ind seq (p ∷ ps) =
    let ind = sub32 seq p.seq in if leb (length (p ∷ ps)) ind then none else some ind

-- `info_deq_[ind].status_ = kBad`, after the assertion.
unfoldable pub mark_bad : ℕ → Deq → Result Deq
mark_bad ind q = elim (get_elem? q ind) [
  | none ↦ err undefined
  | some p ↦ elim p.fate [ unknown ↦ ok (set q ind (with_fate bad p)) | _ ↦ err assert_failed ]
]

-- The loop over the nacks. It gives `true` where it returns from `PushPkts` early.
unfoldable pub mark_nacks : List ℕ → Deq → Result (Bool × Deq)
unfolding get_ind mark_bad
mark_nacks [] q = ok (false, q)
mark_nacks (seq ∷ seqs) q = elim (get_ind seq q) [
  | none ↦ ok (true, q)
  | some ind ↦ mark_bad ind q >>= mark_nacks seqs
]

-- `if (status_ == kUnknown) status_ = kGood`.
unfoldable pub settle : RawPkt → RawPkt
settle p = elim p.fate [ unknown ↦ with_fate good p | _ ↦ p ]

-- The loop that settles `n` packets from position `i` on.
unfoldable pub settle_range : ℕ → ℕ → Deq → Deq
unfolding settle
settle_range i n [] = []
settle_range zero zero (p ∷ ps) = p ∷ ps
settle_range zero (suc n) (p ∷ ps) = settle p ∷ settle_range zero n ps
settle_range (suc i) n (p ∷ ps) = p ∷ settle_range i n ps

-- `PushPkts`.
unfoldable pub push_pkts : ℕ → ℕ → List ℕ → Deq → Result Deq
unfolding mark_nacks settle_range get_ind
push_pkts end_seq num_pkts nacks q = do
  (stop, q1) ← mark_nacks nacks q
  let begin_seq = add32 (sub32 end_seq num_pkts) 1
  ok (
      if stop then q1 else (elim (get_ind begin_seq q1) [
        | none ↦ q1
        | some first ↦ elim (get_ind end_seq q1) [
          | none ↦ q1
          | some last ↦ drop first (settle_range first (last + 1 - first) q1)
        ]
      ]))

-- `PopPktStatus`: the packets at the front whose fate is known, and what is left.
unfoldable pub pop_known : Deq → List RawPkt × Deq
pop_known [] = ([], [])
pop_known (p ∷ ps) =
    let (known, rest) = pop_known ps in
    elim p.fate [ unknown ↦ ([], p ∷ ps) | _ ↦ (p ∷ known, rest) ]

-- The public `PopPktStatus`.
unfoldable pub pop_pkt_status : ℕ → ℕ → List ℕ → Deq → Result (List RawPkt × Deq)
unfolding push_pkts pop_known
pop_pkt_status end_seq num_pkts nacks q = do
  q1 ← push_pkts end_seq num_pkts nacks q
  ok (pop_known q1)

-- `ClearPktStatus`: all packets come out as bad.
unfoldable clear_pkt_status : Deq → List RawPkt × Deq
clear_pkt_status [] = ([], [])
clear_pkt_status (p ∷ ps) = (with_fate bad p ∷ (clear_pkt_status ps).0, [])

-- `PushPktStatus`, with what `status_vec` holds after it, if it is written.
unfoldable push_pkt_status : RawPkt → Deq → Option (List RawPkt) × Deq
unfolding clear_pkt_status
push_pkt_status p q =
    if leb max_buf_size (length q)
    then (some ((clear_pkt_status q).0), (clear_pkt_status q).1 ++ p ∷ [])
    else (none, q ++ p ∷ [])
