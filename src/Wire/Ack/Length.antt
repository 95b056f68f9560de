-- ===== src/Wire/Ack/Length.antt =====
-- The length of an acknowledgement on the wire, and the end of its room.
use wspace_controller.Prelude.{
  ℕ, suc, ◌+◌, ◌*◌, ◌%◌, ◌^◌, ◌≤◌, ◌<◌, ◌≡◌, ◌↔◌, refl, ◌∙◌, true, List, ◌∷◌, arith, leb, ltb,
  length,
}
use wspace_controller.Prelude.Result.{ok, err, assert_failed}
use wspace_controller.Wire.Ack.{
  AckPkt, ack_window, init, is_full, push_nack, get_len, set_end_seq, set_num_pkts, set_ids,
}
use wspace_controller.Wire.Ack.Laws.{push_all, push_all_lem}
use wspace_controller.Prelude.Int.{ℤ}

-- The packet as it is sent: the numbers pushed, and the other fields set.
unfoldable pub finish : ℕ → ℕ → ℤ → ℤ → AckPkt → AckPkt
unfolding set_end_seq set_num_pkts set_ids
finish end_seq num_pkts client_id bs_id p =
    set_ids client_id bs_id (set_num_pkts num_pkts (set_end_seq end_seq p))

get_len_small :
    (hdr_size n : ℕ) (p : AckPkt)
    → 0 < hdr_size
    → hdr_size ≤ 32
    → n ≤ ack_window
    → p.hdr.num_nacks ≡ n
    → get_len hdr_size p ≡ ok (hdr_size + 2 * n)
unfolding get_len
get_len_small hdr_size n p some fits few e =
    let small : (hdr_size + 2 * n) % 2 ^ 16 ≡ hdr_size + 2 * n = omega arith in
    let high : leb (hdr_size + 2 * n) 1472 ≡ true = ground arith in
    let low : ltb 0 (hdr_size + 2 * n) ≡ true = ground arith in rw (e, small, high, low) refl

push_nack_full :
    (x : ℕ) (p : AckPkt) → p.hdr.num_nacks ≡ ack_window → push_nack x p ≡ err assert_failed
unfolding push_nack
push_nack_full x p e = rw e refl

is_full_iff :
    (p : AckPkt) (n : ℕ)
    → p.hdr.num_nacks ≡ n
    → n ≤ ack_window
    → (is_full p ≡ true) ↔ (n ≡ ack_window)
unfolding is_full
is_full_iff p n e few = rw e (λ h. ground arith, λ h. ground arith)

-- With a header of 1 to 32 bytes, an acknowledgement filled with up to a window of numbers after `Init`
-- passes both checks of `GetLen`: its length is that of the header and two bytes for each number, so
-- it fits a packet of 1472 bytes, whatever its other fields are set to. It is full just where a whole
-- window is in it, and then a further number fails at the assertion of `PushNack`.
pub get_len-push_all :
    (hdr_size type seq : ℕ) (seqs : List ℕ) (p : AckPkt)
    → 0 < hdr_size
    → hdr_size ≤ 32
    → length p.rel_seq_arr ≡ ack_window
    → length seqs < ack_window
    → seq < 2 ^ 32
    → (p' : AckPkt) × (push_all (seq ∷ seqs) (init type p) ≡ ok p')
      × ((end_seq num_pkts : ℕ) (client_id bs_id : ℤ)
          → get_len hdr_size (finish end_seq num_pkts client_id bs_id p')
            ≡ ok (hdr_size + 2 * suc (length seqs)))
      × ((is_full p' ≡ true) ↔ (suc (length seqs) ≡ ack_window))
      × (suc (length seqs) ≡ ack_window → (x : ℕ) → push_nack x p' ≡ err assert_failed)
unfolding finish
get_len-push_all hdr_size type seq seqs p some fits arr room h =
    let (p', run, count, parsed) = push_all_lem type seq seqs p arr room h in
    (
      p',
      run,
      λ end_seq num_pkts client_id bs_id.
          get_len_small hdr_size (suc (length seqs)) (finish end_seq num_pkts client_id bs_id p')
            some fits (omega arith) count,
      is_full_iff p' (suc (length seqs)) count (omega arith),
      λ all x. push_nack_full x p' (count ∙ all),
    )
