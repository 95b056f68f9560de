-- ===== src/Wire/Ack.antt =====
-- `AckHeader` and `AckPkt`: a list of lost sequence numbers, each as its distance from the first.
pub mod Laws
pub mod Length
pub mod Parsed
use wspace_controller.Prelude.{
  ℕ, zero, suc, ◌+◌, ◌-◌, ◌*◌, ◌%◌, ◌^◌, ◌≤◌, ◌<◌, ◌≡◌, refl, sym, ap, ◌∙◌, Bool, true, false, ◌&&◌,
  List, Option, none, some, [], ◌∷◌, ◌++◌, map, arith, ltb, leb, ◌==◌, if◌then◌else◌, length, set,
  take, length-set, lt→ltb, ==-ne, Bool-cases, inl, inr, append_assoc, append-nil,
}
use wspace_controller.Prelude.Int.{ℤ}
use wspace_controller.Prelude.Result.{Result, ok, err, ◌>>=◌, ◌>>◌, guard, assert_failed}
use wspace_controller.Word.{u16, u32, add32, sub32}
use wspace_controller.Buffer.{pkt_size}

pub record AckHeader : Type 0 where
  pub type : ℕ
  pub num_nacks : ℕ
  pub num_pkts : ℕ
  pub ack_seq : ℕ
  pub start_nack_seq : ℕ
  pub end_seq : ℕ
  pub client_id : ℤ
  pub bs_id : ℤ

pub record AckPkt : Type 0 where
  pub hdr : AckHeader
  pub rel_seq_arr : List ℕ

abbrev pub ack_window : ℕ
ack_window = 720

-- `AckPkt::Init`, by `AckHeader::Init`.
unfoldable pub init : ℕ → AckPkt → AckPkt
init type p = record p {
  hdr = record (p.hdr) {
    type = type;
    ack_seq = add32 p.hdr.ack_seq 1;
    num_nacks = 0;
    start_nack_seq = 0;
    end_seq = 0;
    num_pkts = 0;
  };
}

unfoldable pub is_full : AckPkt → Bool
is_full p = leb ack_window p.hdr.num_nacks

unfoldable pub push_nack : ℕ → AckPkt → Result AckPkt
push_nack seq p =
    if p.hdr.num_nacks == 0
    then ok (record {
      hdr = record (p.hdr) { start_nack_seq = seq; num_nacks = u16 (p.hdr.num_nacks + 1) };
      rel_seq_arr = set p.rel_seq_arr 0 0;
    })
    else if ltb p.hdr.num_nacks ack_window
    then ok (record {
      hdr = record (p.hdr) { num_nacks = u16 (p.hdr.num_nacks + 1) };
      rel_seq_arr = set p.rel_seq_arr p.hdr.num_nacks (u16 (sub32 seq p.hdr.start_nack_seq));
    })
    else err assert_failed

-- `set_end_seq`, `set_num_pkts` and `set_ids`.
unfoldable pub set_end_seq : ℕ → AckPkt → AckPkt
set_end_seq end_seq p = record p { hdr = record (p.hdr) { end_seq = end_seq } }

unfoldable pub set_num_pkts : ℕ → AckPkt → AckPkt
set_num_pkts num_pkts p = record p { hdr = record (p.hdr) { num_pkts = num_pkts } }

unfoldable pub set_ids : ℤ → ℤ → AckPkt → AckPkt
set_ids client_id bs_id p = record p {
  hdr = record (p.hdr) { client_id = client_id; bs_id = bs_id };
}

-- `GetLen`; `hdr_size` is the size of an `AckHeader`, and an entry of the array has two bytes.
unfoldable pub get_len : ℕ → AckPkt → Result ℕ
get_len hdr_size p =
    let len = u16 (hdr_size + 2 * p.hdr.num_nacks) in
    guard (leb len pkt_size && ltb 0 len) assert_failed >> ok len

-- The array that `ParseNack` fills.
unfoldable pub parse_nack : AckPkt → List ℕ
parse_nack p = map (λ rel. add32 rel p.hdr.start_nack_seq) (take p.hdr.num_nacks p.rel_seq_arr)

-- What `ParseNack` gives; `num_pkts` only if the caller asks for it.
pub record ParsedAck : Type 0 where
  pub type : ℕ
  pub ack_seq : ℕ
  pub num_nacks : ℕ
  pub end_seq : ℕ
  pub client_id : ℤ
  pub bs_id : ℤ
  pub num_pkts : Option ℕ
  pub seq_arr : List ℕ

unfoldable pub parse_ack : Bool → AckPkt → ParsedAck
unfolding parse_nack
parse_ack is_asked p = record {
  type = p.hdr.type;
  ack_seq = p.hdr.ack_seq;
  num_nacks = p.hdr.num_nacks;
  end_seq = p.hdr.end_seq;
  client_id = p.hdr.client_id;
  bs_id = p.hdr.bs_id;
  num_pkts = if is_asked then some p.hdr.num_pkts else none;
  seq_arr = parse_nack p;
}
