-- ===== src/Wire/Ack/Laws.antt =====
-- What `ParseNack` reads of what `PushNack` stored.
use wspace_controller.Prelude.{
  ℕ, zero, suc, ◌+◌, ◌^◌, ◌≤◌, ◌<◌, ◌≡◌, refl, sym, ap, ◌∙◌, List, [], ◌∷◌, ◌++◌, map, arith,
  length, set, take, length-set, lt→ltb, ==-ne, append_assoc, append-nil,
}
use wspace_controller.Prelude.Result.{Result, ok, ◌>>=◌}
use wspace_controller.Word.{u16, add32, sub32}
use wspace_controller.Wire.Ack.{AckPkt, ack_window, init, push_nack, parse_nack}

-- Room for a whole window, as in the class, and no more entries than that.
pub record IsValid (p : AckPkt) : Type 0 where
  pub array : length p.rel_seq_arr ≡ ack_window
  pub count : p.hdr.num_nacks ≤ ack_window
  pub start : p.hdr.start_nack_seq < 2 ^ 32

pub init-IsValid :
    (type : ℕ) (p : AckPkt) → length p.rel_seq_arr ≡ ack_window → IsValid (init type p)
unfolding init
init-IsValid type p h = record { array = h; count = omega arith; start = omega arith }

take-set : (xs : List ℕ) (n v : ℕ) → n < length xs → take (suc n) (set xs n v) ≡ take n xs ++ v ∷ []
take-set [] n v h = elim h [ ]
take-set (x ∷ xs) zero v h = refl
take-set (x ∷ xs) (suc n) v h = ap (◌∷◌ x) (take-set xs n v (omega arith))

map-snoc : (f : ℕ → ℕ) (xs : List ℕ) (x : ℕ) → map f (xs ++ x ∷ []) ≡ map f xs ++ f x ∷ []
map-snoc f [] x = refl
map-snoc f (y ∷ xs) x = ap (◌∷◌ (f y)) (map-snoc f xs x)

-- What the receiver reads for a sequence number: the distance is cut to 16 bits.
abbrev received : ℕ → ℕ → ℕ
received start seq = add32 (u16 (sub32 seq start)) start

-- The first number after `Init` is stored as it is.
push_nack_first :
    (seq : ℕ) (p : AckPkt)
    → IsValid p
    → p.hdr.num_nacks ≡ 0
    → seq < 2 ^ 32
    → (p' : AckPkt) × (push_nack seq p ≡ ok p')
      × IsValid p'
      × (p'.hdr.start_nack_seq ≡ seq)
      × (p'.hdr.num_nacks ≡ 1)
      × (parse_nack p' ≡ seq ∷ [])
unfolding push_nack parse_nack
push_nack_first seq p v z h =
    let arr = set p.rel_seq_arr 0 0 in
    let long : 0 < length p.rel_seq_arr = omega (arith, v.array) in
    (
      record {
        hdr = record (p.hdr) { start_nack_seq = seq; num_nacks = u16 (p.hdr.num_nacks + 1) };
        rel_seq_arr = arr;
      },
      rw z,
      record { array = length-set p.rel_seq_arr 0 0 ∙ v.array; count = omega arith; start = h },
      refl,
      omega arith,
      rw (z, take-set p.rel_seq_arr 0 0 long) (ap (λ x. x ∷ []) (omega arith)),
    )

-- A further number is appended, as far as its distance fits 16 bits.
push_nack_next :
    (seq : ℕ) (p : AckPkt)
    → IsValid p
    → 0 < p.hdr.num_nacks
    → p.hdr.num_nacks < ack_window
    → (p' : AckPkt) × (push_nack seq p ≡ ok p')
      × IsValid p'
      × (p'.hdr.start_nack_seq ≡ p.hdr.start_nack_seq)
      × (p'.hdr.num_nacks ≡ p.hdr.num_nacks + 1)
      × (parse_nack p' ≡ parse_nack p ++ received p.hdr.start_nack_seq seq ∷ [])
unfolding push_nack parse_nack
push_nack_next seq p v some_before room =
    let n = p.hdr.num_nacks in
    let x = u16 (sub32 seq p.hdr.start_nack_seq) in
    let next : u16 (n + 1) ≡ suc n = omega arith in
    (
      record {
        hdr = record (p.hdr) { num_nacks = u16 (n + 1) };
        rel_seq_arr = set p.rel_seq_arr n x;
      },
      rw (==-ne n 0 (λ e. omega arith), lt→ltb n ack_window room),
      record {
        array = length-set p.rel_seq_arr n x ∙ v.array;
        count = omega arith;
        start = v.start;
      },
      refl,
      omega arith,
      rw (next, take-set p.rel_seq_arr n x (omega (arith, v.array)))
          (map-snoc (λ rel. add32 rel p.hdr.start_nack_seq) (take n p.rel_seq_arr) x),
    )

unfoldable pub push_all : List ℕ → AckPkt → Result AckPkt
push_all [] p = ok p
push_all (seq ∷ seqs) p = push_nack seq p >>= push_all seqs

push_all_next :
    (seqs : List ℕ) (p : AckPkt)
    → IsValid p
    → 0 < p.hdr.num_nacks
    → p.hdr.num_nacks + length seqs ≤ ack_window
    → (p' : AckPkt) × (push_all seqs p ≡ ok p')
      × (p'.hdr.num_nacks ≡ p.hdr.num_nacks + length seqs)
      × (parse_nack p' ≡ parse_nack p ++ map (received p.hdr.start_nack_seq) seqs)
unfolding push_all
push_all_next [] p v some_before room = (p, refl, omega arith, sym (append-nil (parse_nack p)))
push_all_next (seq ∷ seqs) p v some_before room =
    let (p1, run, v1, start, count, parsed) = push_nack_next seq p v some_before (omega arith) in
    let (p2, run2, count2, parsed2) =
      push_all_next seqs p1 v1 (omega (arith, count)) (omega (arith, count)) in
    (
      p2,
      rw run run2,
      omega (arith, count, count2),
      parsed2
          ∙ rw (parsed, start)
              (append_assoc (parse_nack p) _ (map (received p.hdr.start_nack_seq) seqs)),
    )

-- No number is 2 ^ 16 or more behind the first, counted around 2 ^ 32.
abbrev pub AreNear : ℕ → List ℕ → Type 0
AreNear start [] = Unit
AreNear start (seq ∷ seqs) = (seq < 2 ^ 32) × (sub32 seq start < 2 ^ 16) × AreNear start seqs

pub map-received :
    (start : ℕ) (seqs : List ℕ)
    → start < 2 ^ 32
    → AreNear start seqs
    → map (received start) seqs ≡ seqs
map-received start [] h n = refl
map-received start (seq ∷ seqs) h (small, near, rest) =
    rw (map-received start seqs h rest) (ap (λ x. x ∷ seqs) (omega arith))

-- A packet after `Init` takes up to a window of numbers: their count, and what is read of them.
pub push_all_lem :
    (type seq : ℕ) (seqs : List ℕ) (p : AckPkt)
    → length p.rel_seq_arr ≡ ack_window
    → length seqs < ack_window
    → seq < 2 ^ 32
    → (p' : AckPkt) × (push_all (seq ∷ seqs) (init type p) ≡ ok p')
      × (p'.hdr.num_nacks ≡ suc (length seqs))
      × (parse_nack p' ≡ seq ∷ map (received seq) seqs)
unfolding push_all
push_all_lem type seq seqs p arr room h =
    let v = init-IsValid type p arr in
    let (p1, run, v1, start, count, parsed) =
      push_nack_first seq (init type p) v (num_nacks-init type p) h in
    let (p2, run2, count2, parsed2) =
      push_all_next seqs p1 v1 (omega (arith, count)) (omega (arith, count)) in
    (p2, rw run run2, omega (arith, count, count2), parsed2 ∙ rw (parsed, start) refl)
  where
    num_nacks-init : (type : ℕ) (p : AckPkt) → (init type p).hdr.num_nacks ≡ 0
    num_nacks-init type p = unfold init in refl
