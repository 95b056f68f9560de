-- ===== src/Tests/Packets.antt =====
-- Packets, headers, buffers and timers.
use wspace_controller.Prelude.{
  ℕ, ◌≡◌, ◌↔◌, ◌≢◌, refl, true, List, [], ◌∷◌, ◌++◌, some, arith, replicate, length-replicate,
}
use wspace_controller.Prelude.Int.{ℤ, pos}
use wspace_controller.Prelude.Result.{ok, err, ◌>>=◌, assert_failed, undefined}
use wspace_controller.Timer.{Timer, lt}
use wspace_controller.Timer.Laws.{IsNormal, IsBefore, lt_iff}
use wspace_controller.Wire.Rate.{get_rate, set_rate}
use wspace_controller.Wire.Ack
use wspace_controller.Wire.Ack.{
  AckPkt, AckHeader, ack_window, push_nack, parse_ack, get_len, ParsedAck,
}
use wspace_controller.Wire.Ack.Laws.{push_all}
use wspace_controller.Wire.Ack.Length.{finish, get_len-push_all}
use wspace_controller.Wire.Ack.Parsed.{parse_ack-push_all}
use wspace_controller.Controller.Client.{extract_client_id, extract_client_id_lem}
use wspace_controller.Text.Decimal.{dotted}
use wspace_controller.Wire.Header.{
  AthDataHeader, AthCodeHeader, set_ath_hdr, parse_ath_hdr, set_header, parse_header, ath_code,
  ath_data, parse_ath_hdr-set_ath_hdr, parse_header-set_header,
}
use wspace_controller.Buffer.{TxDataBuf, new_buf, is_full}
use wspace_controller.Buffer.Packets.{enqueue_pkt}
use wspace_controller.Buffer.Fifo.{
  IsQueue, EnqueueSpec, DequeueSpec, enqueue_pkt-IsQueue, dequeue_pkt-IsQueue, new_buf-IsQueue,
}
use wspace_controller.RawBuf.{RawPkt, unknown, good, bad, with_fate, pop_pkt_status}
use wspace_controller.RawBuf.Acked.{pop_pkt_status-fates}

abbrev one_second : Timer
one_second = record { sec = pos 1; nsec = pos 999999999 }

abbrev two_seconds : Timer
two_seconds = record { sec = pos 2; nsec = pos 5 }

one_second-IsNormal : IsNormal one_second
one_second-IsNormal = record { low = omega arith; high = omega arith }

two_seconds-IsNormal : IsNormal two_seconds
two_seconds-IsNormal = record { low = omega arith; high = omega arith }

lt_iff_example : (lt one_second two_seconds ≡ true) ↔ IsBefore one_second two_seconds
lt_iff_example = lt_iff one_second two_seconds one_second-IsNormal two_seconds-IsNormal

abbrev old_ack : AckPkt
old_ack = record {
  hdr = record {
    type = 3;
    num_nacks = 4;
    num_pkts = 9;
    ack_seq = 1;
    start_nack_seq = 77;
    end_seq = 90;
    client_id = pos 9;
    bs_id = pos 2;
  };
  rel_seq_arr = replicate ack_window 0;
}

-- The second number has passed 2 ^ 32.
parse_ack-push_all_example :
    (p' : AckPkt) × (push_all (4294967295 ∷ 2 ∷ []) (Ack.init 3 old_ack) ≡ ok p')
    × (parse_ack true (finish 3 5 (pos 9) (pos 2) p') ≡ record {
      type = 3;
      ack_seq = 2;
      num_nacks = 2;
      end_seq = 3;
      client_id = pos 9;
      bs_id = pos 2;
      num_pkts = some 5;
      seq_arr = 4294967295 ∷ 2 ∷ [];
    })
parse_ack-push_all_example =
    parse_ack-push_all 3 4294967295 3 5 (pos 9) (pos 2) true (2 ∷ []) old_ack
      (length-replicate {A = ℕ} ack_window 0) (omega arith) (omega arith)
      (omega arith, omega arith, tt)

get_len-push_all_example :
    (p' : AckPkt) × (push_all (7 ∷ 9 ∷ []) (Ack.init 3 old_ack) ≡ ok p')
    × ((end_seq num_pkts : ℕ) (client_id bs_id : ℤ)
        → get_len 25 (finish end_seq num_pkts client_id bs_id p') ≡ ok 29)
    × ((Ack.is_full p' ≡ true) ↔ (2 ≡ ack_window))
    × (2 ≡ ack_window → (x : ℕ) → push_nack x p' ≡ err assert_failed)
get_len-push_all_example =
    get_len-push_all 25 3 7 (9 ∷ []) old_ack (omega arith) (omega arith)
      (length-replicate {A = ℕ} ack_window 0) (omega arith) (omega arith)

-- An `inet_ntoa`, on the four bytes of an address.
abbrev pub some_inet_ntoa : List ℕ → List ℕ
some_inet_ntoa (a ∷ b ∷ c ∷ d ∷ rest) = dotted a b c d
some_inet_ntoa _ = []

abbrev long_size : ℕ
long_size = 4

extract_client_id_lem_example :
    (long_size ≡ 4
      → extract_client_id some_inet_ntoa long_size (replicate 16 0 ++ (10 ∷ 0 ∷ 0 ∷ 9 ∷ []))
        ≡ ok (pos 9))
    × (long_size ≢ 4
        → extract_client_id some_inet_ntoa long_size (replicate 16 0 ++ (10 ∷ 0 ∷ 0 ∷ 9 ∷ []))
          ≡ err undefined)
extract_client_id_lem_example =
    extract_client_id_lem some_inet_ntoa long_size (replicate 16 0) [] 10 0 0 9
      (λ a b c d ha hb hc hd. refl) refl (omega arith) (omega arith) (omega arith) (omega arith)

abbrev data_header : AthDataHeader
data_header = record {
  type = ath_data;
  raw_seq = 1;
  rate = 0x0b;
  bs_id = pos 2;
  client_id = pos 9;
  seq_num = 0;
  len = 0;
}

abbrev sent_header : AthDataHeader
sent_header = record data_header { rate = 0x1b; seq_num = 5; len = 100 }

parse_ath_hdr-set_ath_hdr_example :
    (code : ℕ) × (parse_ath_hdr 28 sent_header ≡ ok (5, 100, code)) × (get_rate code ≡ ok 10)
unfolding set_ath_hdr set_rate
parse_ath_hdr-set_ath_hdr_example =
    parse_ath_hdr-set_ath_hdr 28 5 100 10 data_header sent_header refl

abbrev code_header : AthCodeHeader
code_header = record {
  type = 0;
  raw_seq = 0;
  rate = 0x0b;
  bs_id = pos 2;
  client_id = pos 9;
  batch_id = 0;
  start_seq = 0;
  ind = 0;
  k = 0;
  n = 0;
  lens = [];
}

parse_header-set_header_example :
    (set_header 8 3 5 ath_code 1 2 4 (100 ∷ 60 ∷ []) code_header >>= parse_header)
    ≡ ok (record {
      batch_id = 3;
      start_seq = 5;
      ind = 1;
      k = 2;
      n = 4;
      bs_id = pos 2;
      client_id = pos 9;
    })
parse_header-set_header_example =
    parse_header-set_header 8 3 5 1 2 4 (100 ∷ 60 ∷ []) code_header (omega arith) (omega arith)
      (omega arith) (omega arith) (omega arith) (omega arith) (omega arith) (omega arith)

enqueue_pkt-IsQueue_example : EnqueueSpec (is_full (new_buf 0)) (7 ∷ 8 ∷ []) [] (new_buf 0)
unfolding new_buf
enqueue_pkt-IsQueue_example =
    enqueue_pkt-IsQueue (7 ∷ 8 ∷ []) [] (new_buf 0) (new_buf-IsQueue 0) (omega arith) (omega arith)
      (omega arith)

-- A buffer into which one packet was put.
stored :
    (b' : TxDataBuf) × (enqueue_pkt (7 ∷ 8 ∷ []) (new_buf 0) ≡ some (ok b'))
    × IsQueue ((7 ∷ 8 ∷ []) ∷ []) b'
    × (b'.head_pt ≡ 0)
unfolding new_buf is_full EnqueueSpec
stored =
    enqueue_pkt-IsQueue (7 ∷ 8 ∷ []) [] (new_buf 0) (new_buf-IsQueue 0) (omega arith) (omega arith)
      (omega arith)

dequeue_pkt-IsQueue_example : DequeueSpec 3 ((7 ∷ 8 ∷ []) ∷ []) (stored.0)
dequeue_pkt-IsQueue_example = dequeue_pkt-IsQueue 3 ((7 ∷ 8 ∷ []) ∷ []) (stored.0) (stored.2)

abbrev raw_pkt : ℕ → RawPkt
raw_pkt seq = record { seq = seq; rate = 10; len = 50; fate = unknown; send_time = one_second }

-- Of the packets 4 to 7, 5 and 6 are acknowledged, and 5 is lost.
pop_pkt_status-fates_example :
    pop_pkt_status 6 2 (5 ∷ []) (raw_pkt 4 ∷ raw_pkt 5 ∷ raw_pkt 6 ∷ raw_pkt 7 ∷ [])
    ≡ ok (with_fate bad (raw_pkt 5) ∷ with_fate good (raw_pkt 6) ∷ [], raw_pkt 7 ∷ [])
pop_pkt_status-fates_example =
    pop_pkt_status-fates 4 6 (5 ∷ []) (raw_pkt 4 ∷ []) (raw_pkt 5 ∷ raw_pkt 6 ∷ []) (raw_pkt 7 ∷ [])
      (refl, (refl, (refl, (refl, tt)))) (omega arith) (refl, (refl, (refl, (refl, tt)))) refl
      (omega arith) (omega arith, omega arith, refl, tt)
