-- ===== src/Wire/Header.antt =====
-- `AthDataHeader` and `AthCodeHeader` of wspace_asym_util.h and wspace_asym_util.cc. A
-- field of w bits keeps its values modulo 2 ^ w. What a compiler makes of `sizeof` is a parameter.
use wspace_controller.Prelude.{
  ℕ, ◌-◌, ◌%◌, ◌^◌, ◌≤◌, ◌<◌, ◌≡◌, refl, subst, Bool, true, false, ◌&&◌, List, take, arith, ltb,
  leb, ◌==◌, lt→ltb,
}
use wspace_controller.Prelude.Int.{ℤ}
use wspace_controller.Prelude.Result.{
  Fault, Result, ok, ◌>>=◌, ◌>>◌, guard, assert_failed, exited, >>=-eq-ok, ok-injective,
}
use wspace_controller.Word.{u8}
use wspace_controller.Buffer.{pkt_size}
use wspace_controller.Wire.Rate.{set_rate, get_rate, get_rate-set_rate}

-- `ATH_DATA` and `ATH_CODE`.
abbrev pub ath_data : ℕ
ath_data = 1

abbrev pub ath_code : ℕ
ath_code = 2

-- `MAX_BATCH_SIZE`.
abbrev pub max_batch_size : ℕ
max_batch_size = 10

-- `AthHeader` and `AthDataHeader`.
pub record AthDataHeader : Type 0 where
  pub type : ℕ
  pub raw_seq : ℕ
  pub rate : ℕ
  pub bs_id : ℤ
  pub client_id : ℤ
  pub seq_num : ℕ
  pub len : ℕ

-- `SetAthHdr`, for the size `size` of the header.
unfoldable pub set_ath_hdr : ℕ → ℕ → ℕ → ℕ → AthDataHeader → Result AthDataHeader
set_ath_hdr size seq len rate h =
    guard (leb len (pkt_size - size)) exited
    >> (set_rate rate >>= λ code.
        ok (record h { type = ath_data; len = len; seq_num = seq; rate = code }))

-- `ParseAthHdr`: the sequence number, the length and the card's rate code.
unfoldable pub parse_ath_hdr : ℕ → AthDataHeader → Result (ℕ × ℕ × ℕ)
parse_ath_hdr size h =
    guard (h.type == ath_data) exited
    >> guard (leb h.len (pkt_size - size)) exited
    >> ok (h.seq_num, h.len, u8 h.rate)

set_rate-small : (rate code : ℕ) → set_rate rate ≡ ok code → code % 2 ^ 8 ≡ code
unfolding set_rate
set_rate-small rate code e = ground arith

guard-true :
    {A : Type 0} (b : Bool) (f : Fault) (r : Result A) (a : A)
    → (guard b f >> r) ≡ ok a
    → (b ≡ true) × (r ≡ ok a)
guard-true true f r a e = (refl, e)
guard-true false f r a e = cc

-- Where `SetAthHdr` accepts the values, `ParseAthHdr` returns its number and its
-- length, and a code from which `GetRate` gives the rate that was set.
pub parse_ath_hdr-set_ath_hdr :
    (size seq len rate : ℕ) (h h' : AthDataHeader)
    → set_ath_hdr size seq len rate h ≡ ok h'
    → (code : ℕ) × (parse_ath_hdr size h' ≡ ok (seq, len, code)) × (get_rate code ≡ ok rate)
unfolding set_ath_hdr parse_ath_hdr
parse_ath_hdr-set_ath_hdr size seq len rate h h' e =
    let (fits, e1) = guard-true (leb len (pkt_size - size)) exited _ h' e in
    let (code, r, e2) = >>=-eq-ok (set_rate rate) _ e1 in
    let made = ok-injective _ h' e2 in
    (
      code,
      subst (λ x. parse_ath_hdr size x ≡ ok (seq, len, code)) made
          (rw (parse_ath_hdr, fits, set_rate-small rate code r)),
      get_rate-set_rate rate code r,
    )

-- `AthCodeHeader`, with the lengths that stand behind it in the packet.
pub record AthCodeHeader : Type 0 where
  pub type : ℕ
  pub raw_seq : ℕ
  pub rate : ℕ
  pub bs_id : ℤ
  pub client_id : ℤ
  pub batch_id : ℕ
  pub start_seq : ℕ
  pub ind : ℕ
  pub k : ℕ
  pub n : ℕ
  pub lens : List ℕ

-- `SetHeader`, for counts that are not negative: the `int` arguments are cut to 8 bits.
unfoldable pub set_header :
    ℕ → ℕ → ℕ → ℕ → ℕ → ℕ → ℕ → List ℕ → AthCodeHeader → Result AthCodeHeader
set_header raw_seq batch_id start_seq type ind k n len_arr h =
    guard (ltb 0 raw_seq && ltb 0 batch_id && ltb 0 start_seq && ltb ind n && leb k n) assert_failed
    >> ok (record h {
      raw_seq = raw_seq;
      batch_id = batch_id;
      type = type;
      start_seq = start_seq;
      ind = u8 ind;
      k = u8 k;
      n = u8 n;
      lens = take (u8 k) len_arr;
    })

pub record ParsedCode : Type 0 where
  pub batch_id : ℕ
  pub start_seq : ℕ
  pub ind : ℕ
  pub k : ℕ
  pub n : ℕ
  pub bs_id : ℤ
  pub client_id : ℤ

-- `ParseHeader`.
unfoldable pub parse_header : AthCodeHeader → Result ParsedCode
parse_header h =
    guard (h.type == ath_code) assert_failed
    >> guard
        (ltb 0 h.batch_id
          && ltb 0 h.start_seq
          && ltb h.ind h.n
          && leb h.k h.n
          && ltb 0 h.k
          && leb h.k max_batch_size)
        assert_failed
    >> ok (record {
      batch_id = h.batch_id;
      start_seq = h.start_seq;
      ind = h.ind;
      k = h.k;
      n = h.n;
      bs_id = h.bs_id;
      client_id = h.client_id;
    })

-- `GetLenArr`.
unfoldable get_len_arr : AthCodeHeader → Result (List ℕ)
get_len_arr h = guard (ltb 0 h.k) assert_failed >> ok (take h.k h.lens)

le→leb : (a b : ℕ) → a ≤ b → leb a b ≡ true
le→leb a b h = ground arith

-- A batch of 1 to `MAX_BATCH_SIZE` packets in fewer than 256 coded ones, with ids and numbers above 0,
-- is parsed by `ParseHeader` as `SetHeader` was given it, with the ids of the header; and neither fails.
pub parse_header-set_header :
    (raw_seq batch_id start_seq ind k n : ℕ) (len_arr : List ℕ) (h : AthCodeHeader)
    → 0 < raw_seq
    → 0 < batch_id
    → 0 < start_seq
    → ind < n
    → 0 < k
    → k ≤ n
    → k ≤ max_batch_size
    → n < 2 ^ 8
    → (set_header raw_seq batch_id start_seq ath_code ind k n len_arr h >>= parse_header)
      ≡ ok (record {
        batch_id = batch_id;
        start_seq = start_seq;
        ind = ind;
        k = k;
        n = n;
        bs_id = h.bs_id;
        client_id = h.client_id;
      })
unfolding set_header parse_header
parse_header-set_header r b s i k n l h pr pb ps pi pk pkn pkm pn =
    let small : (m : ℕ) → m < 2 ^ 8 → m % 2 ^ 8 ≡ m = λ m q. omega arith in
    rw (
      lt→ltb 0 r pr,
      lt→ltb 0 b pb,
      lt→ltb 0 s ps,
      lt→ltb i n pi,
      le→leb k n pkn,
      small i (omega arith),
      small k (omega arith),
      small n pn,
      lt→ltb 0 b pb,
      lt→ltb 0 s ps,
      lt→ltb i n pi,
      le→leb k n pkn,
      lt→ltb 0 k pk,
      le→leb k max_batch_size pkm,
    )
