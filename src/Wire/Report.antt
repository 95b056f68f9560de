-- ===== src/Wire/Report.antt =====
-- `GPSHeader`, `BSStatsPkt` and `ControllerToClientHeader` of wspace_asym_util.h and wspace_asym_util.cc.
-- The test `speed >= 0` on a `double` is the compiler's, so it is a parameter.
use wspace_controller.Prelude.{
  ℕ, suc, ◌+◌, ◌^◌, ◌<◌, ◌≡◌, refl, Bool, true, List, [], ◌∷◌, arith, ltb, lt→ltb, length,
}
use wspace_controller.Prelude.Int.{ℤ, negsuc}
use wspace_controller.Prelude.Result.{Result, ok, ◌>>=◌, ◌>>◌, guard, assert_failed}
use wspace_controller.NodeId.{NodeId}
use wspace_controller.Double.{Double, of_nat}
use wspace_controller.Word.{add32}
use wspace_controller.Controller.{BsStatsPkt}

-- `GPS`, `BS_STATS` and `CONTROLLER_TO_CLIENT`.
abbrev gps_type : ℕ
gps_type = 7

abbrev bs_stats_type : ℕ
bs_stats_type = 8

abbrev controller_to_client_type : ℕ
controller_to_client_type = 9

pub record GpsHeader (W : Type 0) : Type 0 where
  pub type : ℕ
  pub seq : ℕ
  pub time : W
  pub latitude : W
  pub longitude : W
  pub speed : W

-- `BSStatsPkt` in memory.
record StatsPkt (W : Type 0) : Type 0 where
  type : ℕ
  seq : ℕ
  bs_id : NodeId
  client_id : NodeId
  throughput : W

record ControllerToClientHeader : Type 0 where
  type : ℕ
  client_id : ℤ
  o_seq : ℕ

-- `set_type`, `set_client_id` and `set_o_seq`.
unfoldable set_type : ℕ → ControllerToClientHeader → ControllerToClientHeader
set_type type h = record h { type = type }

unfoldable set_client_id : ℤ → ControllerToClientHeader → ControllerToClientHeader
set_client_id client_id h = record h { client_id = client_id }

unfoldable set_o_seq : ℕ → ControllerToClientHeader → ControllerToClientHeader
set_o_seq o_seq h = record h { o_seq = o_seq }

-- `ReadTun` sets the type of its header once, and the other fields for each packet.
unfoldable begin_header : ControllerToClientHeader → ControllerToClientHeader
unfolding set_type
begin_header h = set_type controller_to_client_type h

unfoldable tunnel_header : ℤ → ℕ → ControllerToClientHeader → ControllerToClientHeader
unfolding set_client_id set_o_seq
tunnel_header client_id o_seq h = set_o_seq o_seq (set_client_id client_id h)

module _ {W : Type 0} where
  -- `BSStatsPkt::Init`.
  unfoldable init_stats : ℕ → NodeId → NodeId → W → StatsPkt W
  init_stats seq bs_id client_id throughput = record {
    type = bs_stats_type;
    seq = seq;
    bs_id = bs_id;
    client_id = client_id;
    throughput = throughput;
  }

  -- `BSStatsPkt::ParsePkt`.
  unfoldable parse_pkt : StatsPkt W → BsStatsPkt W
  parse_pkt p = record {
    seq = p.seq;
    bs_id = p.bs_id;
    client_id = p.client_id;
    throughput = p.throughput;
  }

-- `GPSHeader ()`, with the fields that it leaves unset as 0.
unfoldable pub new_gps : {W : Type 0} ⦃d : Double W⦄ → GpsHeader W
new_gps ⦃d⦄ = record {
  type = gps_type;
  seq = 0;
  time = of_nat 0;
  latitude = of_nat 0;
  longitude = of_nat 0;
  speed = d.of_int (negsuc 0);
}

-- One reading of the receiver: the arguments of `Init`.
pub record Reading (W : Type 0) : Type 0 where
  pub time : W
  pub latitude : W
  pub longitude : W
  pub speed : W

module _ {W : Type 0} (is_nonnegative : W → Bool) where
  -- `GPSHeader::Init`.
  unfoldable pub init_gps : Reading W → GpsHeader W → Result (GpsHeader W)
  init_gps r h =
      guard (is_nonnegative r.speed) assert_failed
      >> ok (record {
        type = gps_type;
        seq = add32 h.seq 1;
        time = r.time;
        latitude = r.latitude;
        longitude = r.longitude;
        speed = r.speed;
      })

  -- `seq ()`.
  unfoldable pub gps_seq : GpsHeader W → Result ℕ
  gps_seq h = guard (ltb 0 h.seq) assert_failed >> ok h.seq

  -- `speed ()`.
  unfoldable pub gps_speed : GpsHeader W → Result W
  gps_speed h = guard (is_nonnegative h.speed) assert_failed >> ok h.speed

  -- `Init` with one reading after the other.
  unfoldable pub init_all : List (Reading W) → GpsHeader W → Result (GpsHeader W)
  unfolding init_gps
  init_all [] h = ok h
  init_all (r ∷ rs) h = init_gps r h >>= init_all rs

  abbrev pub AreNonnegative : List (Reading W) → Type 0
  AreNonnegative [] = Unit
  AreNonnegative (r ∷ rs) = (is_nonnegative r.speed ≡ true) × AreNonnegative rs

  abbrev last_speed : W → List (Reading W) → W
  last_speed s [] = s
  last_speed s (r ∷ rs) = last_speed r.speed rs

  init_all_lem :
      (rs : List (Reading W)) (h : GpsHeader W)
      → AreNonnegative rs
      → is_nonnegative h.speed ≡ true
      → h.seq + length rs < 2 ^ 32
      → (h' : GpsHeader W) × (init_all rs h ≡ ok h')
        × (h'.seq ≡ h.seq + length rs)
        × (gps_speed h' ≡ ok (last_speed h.speed rs))
  unfolding init_all init_gps gps_speed
  init_all_lem [] h n s small = (h, refl, omega arith, rw s refl)
  init_all_lem (r ∷ rs) h (n, ns) s small =
      let next : GpsHeader W = record {
        type = gps_type;
        seq = add32 h.seq 1;
        time = r.time;
        latitude = r.latitude;
        longitude = r.longitude;
        speed = r.speed;
      } in
      let (h', run, seq, speed) = init_all_lem rs next ns n (omega arith) in
      (h', rw n run, omega (arith, seq), speed)

  -- A new header with one or more readings, fewer than 2 ^ 32, of speeds that are not negative: each
  -- `Init` returns, then `seq` gives the number of readings and `speed` the last of them.
  pub seq-init_all :
      ⦃d : Double W⦄ (r : Reading W) (rs : List (Reading W))
      → AreNonnegative (r ∷ rs)
      → suc (length rs) < 2 ^ 32
      → (h : GpsHeader W) × (init_all (r ∷ rs) new_gps ≡ ok h)
        × (gps_seq h ≡ ok (suc (length rs)))
        × (gps_speed h ≡ ok (last_speed r.speed rs))
  unfolding init_all init_gps gps_seq new_gps
  seq-init_all ⦃d⦄ r rs (n, ns) small =
      let first : GpsHeader W = record {
        type = gps_type;
        seq = add32 0 1;
        time = r.time;
        latitude = r.latitude;
        longitude = r.longitude;
        speed = r.speed;
      } in
      let (h, run, seq, speed) = init_all_lem rs first ns n (omega arith) in
      let count : h.seq ≡ suc (length rs) = omega (arith, seq) in
      (h, rw n run, rw (count, lt→ltb 0 (suc (length rs)) (omega arith)) refl, speed)
