-- ===== src/RawBuf/Acked.antt =====
-- Which packets an acknowledgement takes out of the buffer, and with which fates.
use wspace_controller.Prelude.{
  ℕ, suc, ◌+◌, ◌-◌, ◌≤◌, ◌<◌, ◌^◌, ◌≡◌, refl, ap, subst, ◌∙◌, Bool, true, false, List, [], ◌∷◌,
  ◌++◌, map, some, none, if◌then◌else◌, drop, length, arith, ==-ne, length-append, Bool-cases, inl,
  inr,
}
use wspace_controller.Prelude.Result.{ok}
use wspace_controller.Word.{add32, sub32}
use wspace_controller.RawBuf.{
  bad, unknown, good, RawPkt, Deq, with_fate, get_ind, settle, settle_range, push_pkts, pop_known,
  pop_pkt_status,
}
use wspace_controller.RawBuf.Fates.{
  Counts, AreUnknown, is_in, AreNacks, mark, fate_of, get_ind_lem, Waits, Counts-mark, length-mark,
  mark_nacks-map,
}

-- The packets that `PushPkts` keeps after its loop over the nacks.
abbrev kept : Bool → ℕ → ℕ → Deq → Deq
kept stop begin_seq end_seq q1 = if stop then q1 else (elim (get_ind begin_seq q1) [
  | none ↦ q1
  | some first ↦ elim (get_ind end_seq q1) [
    | none ↦ q1
    | some last ↦ drop first (settle_range first (last + 1 - first) q1)
  ]
])

map-append : (f : RawPkt → RawPkt) (xs ys : Deq) → map f (xs ++ ys) ≡ map f xs ++ map f ys
map-append f [] ys = refl
map-append f (x ∷ xs) ys = ap (◌∷◌ (f x)) (map-append f xs ys)

settle_range-past :
    (xs ys : Deq) (n : ℕ)
    → drop (length xs) (settle_range (length xs) n (xs ++ ys)) ≡ settle_range 0 n ys
unfolding settle_range
settle_range-past [] ys n = refl
settle_range-past (x ∷ xs) ys n = settle_range-past xs ys n

settle_range-all : (xs ys : Deq) → settle_range 0 (length xs) (xs ++ ys) ≡ map settle xs ++ ys
unfolding settle_range
settle_range-all [] [] = refl
settle_range-all [] (y ∷ ys) = refl
settle_range-all (x ∷ xs) ys = ap (◌∷◌ (settle x)) (settle_range-all xs ys)

mark-none : (ns : List ℕ) (p : RawPkt) → is_in p.seq ns ≡ false → mark ns p ≡ p
mark-none ns p n = rw n refl

settle-unknown : (p : RawPkt) → p.fate ≡ unknown → settle p ≡ with_fate good p
unfolding settle
settle-unknown p u = rw u refl

settle-mark : (ns : List ℕ) (p : RawPkt) → p.fate ≡ unknown → settle (mark ns p) ≡ fate_of ns p
unfolding settle
settle-mark ns p u = elim (Bool-cases (is_in p.seq ns)) [
  | inl y ↦ rw y refl
  | inr n ↦ ap settle (mark-none ns p n) ∙ settle-unknown p u ∙ rw n refl
]

settled_marks :
    (ns : List ℕ) (q : Deq) → AreUnknown q → map settle (map (mark ns) q) ≡ map (fate_of ns) q
settled_marks ns [] u = refl
settled_marks ns (p ∷ ps) u = rw (settle-mark ns p u.0, settled_marks ns ps u.1) refl

pop_known-decided :
    (b : Bool) (p : RawPkt) (ps : Deq)
    → pop_known (with_fate (if b then bad else good) p ∷ ps)
      ≡ (with_fate (if b then bad else good) p ∷ (pop_known ps).0, (pop_known ps).1)
unfolding pop_known
pop_known-decided true p ps = refl
pop_known-decided false p ps = refl

pop_known-fate_of :
    (ns : List ℕ) (xs ys : Deq)
    → AreUnknown ys
    → pop_known (map (fate_of ns) xs ++ ys) ≡ (map (fate_of ns) xs, ys)
unfolding pop_known
pop_known-fate_of ns [] [] u = refl
pop_known-fate_of ns [] (y ∷ ys) u = simp (pop_known, u.0)
pop_known-fate_of ns (x ∷ xs) ys u =
    pop_known-decided (is_in x.seq ns) x (map (fate_of ns) xs ++ ys)
    ∙ ap (λ r. (fate_of ns x ∷ r.0, r.1)) (pop_known-fate_of ns xs ys u)

Waits-AreUnknown : (ns : List ℕ) (q : Deq) → AreUnknown q → Waits ns q
Waits-AreUnknown ns [] u = tt
Waits-AreUnknown ns (p ∷ ps) u = ((λ h. u.0), Waits-AreUnknown ns ps u.1)

AreUnknown-right : (xs ys : Deq) → AreUnknown (xs ++ ys) → AreUnknown ys
AreUnknown-right [] ys u = u
AreUnknown-right (x ∷ xs) ys u = AreUnknown-right xs ys u.1

AreUnknown-left : (xs ys : Deq) → AreUnknown (xs ++ ys) → AreUnknown xs
AreUnknown-left [] ys u = tt
AreUnknown-left (x ∷ xs) ys u = (u.0, AreUnknown-left xs ys u.1)

Counts-right : (s : ℕ) (xs ys : Deq) → Counts s (xs ++ ys) → Counts (s + length xs) ys
Counts-right s [] ys c = subst (λ k. Counts k ys) (omega arith) c
Counts-right s (x ∷ xs) ys c =
    subst (λ k. Counts k ys) (omega arith) (Counts-right (suc s) xs ys c.1)

is_in-above :
    (first after seq : ℕ) (ns : List ℕ)
    → AreNacks first after ns
    → after ≤ seq
    → is_in seq ns ≡ false
is_in-above first after seq [] a h = refl
is_in-above first after seq (n ∷ ns) (l, m, f, a) h =
    rw (==-ne n seq (λ e. omega (arith, e, m))) (is_in-above first after seq ns a h)

unmarked_above :
    (first t : ℕ) (ns : List ℕ) (q : Deq)
    → AreNacks first t ns
    → (u : ℕ) → t ≤ u
    → Counts u q
    → map (mark ns) q ≡ q
unmarked_above first t ns [] a u h c = refl
unmarked_above first t ns (p ∷ ps) a u h c =
    rw
      (
        mark-none ns p (is_in-above first t p.seq ns a (omega (arith, c.0))),
        unmarked_above first t ns ps a (suc u) (omega arith) c.1,
      )
      refl

AreNacks-wide :
    (first after wide : ℕ) (ns : List ℕ)
    → AreNacks first after ns
    → after ≤ wide
    → AreNacks first wide ns
AreNacks-wide first after wide [] a h = tt
AreNacks-wide first after wide (n ∷ ns) (l, m, f, a) h =
    (l, omega arith, f, AreNacks-wide first after wide ns a h)

kept_lem :
    (b e first last : ℕ) (q : Deq)
    → get_ind b q ≡ some first
    → get_ind e q ≡ some last
    → kept false b e q ≡ drop first (settle_range first (last + 1 - first) q)
kept_lem b e first last q f l = rw (f, l) refl

-- Settling the packets that an acknowledgement is about, with those before them erased.
settled :
    (ns : List ℕ) (before acked after : Deq)
    → AreUnknown acked
    → drop (length before) (
        settle_range
          (length before)
          (length acked)
          (map (mark ns) before ++ (map (mark ns) acked ++ after)))
      ≡ map (fate_of ns) acked ++ after
settled ns before acked after u =
    let b = map (mark ns) before in
    let a = map (mark ns) acked in
    subst
      (λ k.
        drop k (settle_range k (length acked) (b ++ (a ++ after)))
        ≡ map (fate_of ns) acked ++ after)
      (length-mark ns before)
      (settle_range-past b (a ++ after) (length acked)
        ∙ subst (λ k. settle_range 0 k (a ++ after) ≡ map (fate_of ns) acked ++ after)
            (length-mark ns acked)
            (settle_range-all a after ∙ ap (λ x. x ++ after) (settled_marks ns acked u)))

push_pkts_lem :
    (s end_seq : ℕ) (nacks : List ℕ) (before acked after : Deq)
    → Counts s (before ++ (acked ++ after))
    → s + length (before ++ (acked ++ after)) < 2 ^ 32
    → AreUnknown (before ++ (acked ++ after))
    → suc end_seq ≡ s + length before + length acked
    → 0 < length acked
    → AreNacks s (suc end_seq) nacks
    → push_pkts end_seq (length acked) nacks (before ++ (acked ++ after))
      ≡ ok (map (fate_of nacks) acked ++ after)
unfolding push_pkts
push_pkts_lem s e ns before acked after c r u end any a =
    let q = before ++ (acked ++ after) in
    let size : length q ≡ length before + (length acked + length after) =
      length-append before (acked ++ after)
      ∙ ap (λ k. length before + k) (length-append acked after) in
    let q1 = map (mark ns) q in
    let c1 = Counts-mark s ns q c in
    let size1 = length-mark ns q in
    let rest =
      Counts-right (s + length before) acked after (Counts-right s before (acked ++ after) c) in
    let same : map (mark ns) after ≡ after =
      unmarked_above s (suc e) ns after a (s + length before + length acked) (omega (arith, end))
        rest in
    let parts : q1 ≡ map (mark ns) before ++ (map (mark ns) acked ++ after) =
      map-append (mark ns) before (acked ++ after)
      ∙ ap (λ x. map (mark ns) before ++ x) (map-append (mark ns) acked after)
      ∙ ap (λ x. map (mark ns) before ++ (map (mark ns) acked ++ x)) same in
    let begin : add32 (sub32 e (length acked)) 1 ≡ s + length before = omega (arith, end, size) in
    let first : get_ind (s + length before) q1 ≡ some (length before) =
      get_ind_lem s (s + length before) q1 c1 (omega arith) (omega (arith, size, size1))
        (omega (arith, size1))
      ∙ ap some (omega arith) in
    let last : get_ind e q1 ≡ some (e - s) =
      get_ind_lem s e q1 c1 (omega (arith, end)) (omega (arith, end, size, size1))
        (omega (arith, size1)) in
    let count : e - s + 1 - length before ≡ length acked = omega (arith, end) in
    rw
      (mark_nacks-map s ns q c r (AreNacks-wide s (suc e) _ ns a (omega (arith, end, size)))
        (Waits-AreUnknown ns q u))
      (ap ok (
        ap (λ b. kept false b e q1) begin
        ∙ kept_lem (s + length before) e (length before) (e - s) q1 first last
        ∙ rw (count, parts)
            (settled ns before acked after
              (AreUnknown-left acked after (AreUnknown-right before (acked ++ after) u)))))

-- A buffer whose packets are numbered on without a wrap around 2 ^ 32 and have no fate yet, and an
-- acknowledgement of one or more of them, up to `end_seq`, with distinct lost numbers from the buffer up
-- to `end_seq`: `PopPktStatus` does not fail; it returns just the packets acknowledged, in order, as bad
-- where they are lost and good elsewhere; those before them are erased unread, and those after them
-- stay as they are.
pub pop_pkt_status-fates :
    (s end_seq : ℕ) (nacks : List ℕ) (before acked after : Deq)
    → Counts s (before ++ (acked ++ after))
    → s + length (before ++ (acked ++ after)) < 2 ^ 32
    → AreUnknown (before ++ (acked ++ after))
    → suc end_seq ≡ s + length before + length acked
    → 0 < length acked
    → AreNacks s (suc end_seq) nacks
    → pop_pkt_status end_seq (length acked) nacks (before ++ (acked ++ after))
      ≡ ok (map (fate_of nacks) acked, after)
unfolding pop_pkt_status
pop_pkt_status-fates s e ns before acked after c r u end any a =
    rw (push_pkts_lem s e ns before acked after c r u end any a) (
      ap ok (
        pop_known-fate_of ns acked after
          (AreUnknown-right acked after (AreUnknown-right before (acked ++ after) u))))
