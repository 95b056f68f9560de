-- ===== src/Wire/Ack/Parsed.antt =====
-- What `ParseNack` gives of an acknowledgement that was filled and sent.
use wspace_controller.Prelude.{
  ℕ, suc, ◌^◌, ◌<◌, ◌≡◌, refl, ap, subst, ◌∙◌, Bool, Bool-cases, List, [], ◌∷◌, none, some, inl,
  inr, length, ltb, ◌==◌, if◌then◌else◌,
}
use wspace_controller.Prelude.Int.{ℤ}
use wspace_controller.Prelude.Result.{ok, >>=-eq-ok, ok-injective}
use wspace_controller.Word.{add32}
use wspace_controller.Wire.Ack.{
  AckPkt, ack_window, init, push_nack, parse_nack, parse_ack, ParsedAck,
}
use wspace_controller.Wire.Ack.Laws.{push_all, push_all_lem, AreNear, map-received}
use wspace_controller.Wire.Ack.Length.{finish}

-- The fields that numbers leave alone.
record IsSameAck (p p' : AckPkt) : Type 0 where
  type : p'.hdr.type ≡ p.hdr.type
  ack_seq : p'.hdr.ack_seq ≡ p.hdr.ack_seq

push_nack-IsSameAck : (seq : ℕ) (p p' : AckPkt) → push_nack seq p ≡ ok p' → IsSameAck p p'
unfolding push_nack
push_nack-IsSameAck seq p p' e = elim (Bool-cases (p.hdr.num_nacks == 0)) [
  | inl y ↦
      subst (IsSameAck p) (ok-injective _ p' (rw y at e)) (record { type = refl; ack_seq = refl })
  | inr n ↦ elim (Bool-cases (ltb p.hdr.num_nacks ack_window)) [
    | inl y ↦
        subst (IsSameAck p) (ok-injective _ p' (rw (n, y) at e))
          (record { type = refl; ack_seq = refl })
    | inr m ↦ cc (rw (n, m) at e)
  ]
]

push_all-IsSameAck : (seqs : List ℕ) (p p' : AckPkt) → push_all seqs p ≡ ok p' → IsSameAck p p'
unfolding push_all
push_all-IsSameAck [] p p' e =
    subst (IsSameAck p) (ok-injective p p' e) (record { type = refl; ack_seq = refl })
push_all-IsSameAck (seq ∷ seqs) p p' e =
    let (p1, run, rest) = >>=-eq-ok (push_nack seq p) (push_all seqs) e in
    let first = push_nack-IsSameAck seq p p1 run in
    let second = push_all-IsSameAck seqs p1 p' rest in
    record { type = second.type ∙ first.type; ack_seq = second.ack_seq ∙ first.ack_seq }

-- What is read back.
abbrev given : Bool → ℕ → ℕ → ℕ → ℕ → ℕ → ℤ → ℤ → List ℕ → ParsedAck
given is_asked end_seq num_pkts type ack_seq num_nacks client_id bs_id seqs = record {
  type = type;
  ack_seq = ack_seq;
  num_nacks = num_nacks;
  end_seq = end_seq;
  client_id = client_id;
  bs_id = bs_id;
  num_pkts = if is_asked then some num_pkts else none;
  seq_arr = seqs;
}

parse_ack-finish :
    (is_asked : Bool) (end_seq num_pkts : ℕ) (client_id bs_id : ℤ) (p : AckPkt)
    → parse_ack is_asked (finish end_seq num_pkts client_id bs_id p)
      ≡ given is_asked end_seq num_pkts p.hdr.type p.hdr.ack_seq p.hdr.num_nacks client_id bs_id
          (parse_nack p)
unfolding parse_ack finish parse_nack
parse_ack-finish is_asked end_seq num_pkts client_id bs_id p = refl

given-eq :
    (is_asked : Bool) (end_seq num_pkts : ℕ) (client_id bs_id : ℤ) {t t' a a' n n' : ℕ}
    {s s' : List ℕ}
    → t ≡ t'
    → a ≡ a'
    → n ≡ n'
    → s ≡ s'
    → given is_asked end_seq num_pkts t a n client_id bs_id s
      ≡ given is_asked end_seq num_pkts t' a' n' client_id bs_id s'
given-eq is_asked end_seq num_pkts client_id bs_id t a n s = rw (t, a, n, s) refl

-- An acknowledgement is made by `Init`, filled with up to a window of lost sequence numbers, each less
-- than 2 ^ 16 behind the first, and its other fields are set. No push fails, and `ParseNack` gives the
-- type, the sequence number after that of the last acknowledgement (around 2 ^ 32), the fields as they
-- were set, and the same lost numbers in the same order, also where they pass 2 ^ 32.
pub parse_ack-push_all :
    (type seq end_seq num_pkts : ℕ) (client_id bs_id : ℤ) (is_asked : Bool) (seqs : List ℕ)
    (p : AckPkt)
    → length p.rel_seq_arr ≡ ack_window
    → length seqs < ack_window
    → seq < 2 ^ 32
    → AreNear seq seqs
    → (p' : AckPkt) × (push_all (seq ∷ seqs) (init type p) ≡ ok p')
      × (parse_ack is_asked (finish end_seq num_pkts client_id bs_id p') ≡ record {
        type = type;
        ack_seq = add32 p.hdr.ack_seq 1;
        num_nacks = suc (length seqs);
        end_seq = end_seq;
        client_id = client_id;
        bs_id = bs_id;
        num_pkts = if is_asked then some num_pkts else none;
        seq_arr = seq ∷ seqs;
      })
unfolding init
parse_ack-push_all type seq end_seq num_pkts client_id bs_id is_asked seqs p arr room h near =
    let (p', run, count, parsed) = push_all_lem type seq seqs p arr room h in
    let same = push_all-IsSameAck (seq ∷ seqs) (init type p) p' run in
    (
      p',
      run,
      parse_ack-finish is_asked end_seq num_pkts client_id bs_id p'
          ∙ given-eq is_asked end_seq num_pkts client_id bs_id same.type same.ack_seq count
              (parsed ∙ ap (◌∷◌ seq) (map-received seq seqs h near)),
    )
