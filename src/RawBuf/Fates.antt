-- ===== src/RawBuf/Fates.antt =====
-- The lost numbers of an acknowledgement, from the buffer as the sender fills it.
use wspace_controller.Prelude.{
  ℕ, zero, suc, ◌+◌, ◌-◌, ◌≤◌, ◌<◌, ◌^◌, ◌≡◌, refl, sym, ap, subst, ◌∙◌, ◌≢◌, Bool, true, false,
  ◌||◌, List, [], ◌∷◌, map, some, if◌then◌else◌, get_elem?, set, length, arith, ==-ne, ◌==◌, leb,
  length-map, Bool-cases, inl, inr,
}
use wspace_controller.Prelude.Result.{ok}
use wspace_controller.Word.{sub32}
use wspace_controller.RawBuf.{
  bad, unknown, good, RawPkt, Deq, with_fate, get_ind, mark_bad, mark_nacks,
}

-- The packets are numbered from `s` on.
abbrev pub Counts : ℕ → Deq → Type 0
Counts s [] = Unit
Counts s (p ∷ ps) = (p.seq ≡ s) × Counts (suc s) ps

abbrev pub AreUnknown : Deq → Type 0
AreUnknown [] = Unit
AreUnknown (p ∷ ps) = (p.fate ≡ unknown) × AreUnknown ps

abbrev pub is_in : ℕ → List ℕ → Bool
is_in seq [] = false
is_in seq (n ∷ ns) = (n == seq) || is_in seq ns

-- Distinct numbers of packets that the buffer holds.
abbrev pub AreNacks : ℕ → ℕ → List ℕ → Type 0
AreNacks first after [] = Unit
AreNacks first after (n ∷ ns) =
    (first ≤ n) × (n < after) × (is_in n ns ≡ false) × AreNacks first after ns

abbrev pub mark : List ℕ → RawPkt → RawPkt
mark ns p = if is_in p.seq ns then with_fate bad p else p

abbrev pub fate_of : List ℕ → RawPkt → RawPkt
fate_of ns p = with_fate (if is_in p.seq ns then bad else good) p

pub get_ind_lem :
    (s n : ℕ) (q : Deq)
    → Counts s q
    → s ≤ n
    → n < s + length q
    → s + length q < 2 ^ 32
    → get_ind n q ≡ some (n - s)
unfolding get_ind
get_ind_lem s n [] c l h r = absurd (omega arith)
get_ind_lem s n (p ∷ ps) (c, cs) l h r =
    let e : sub32 n p.seq ≡ n - s = omega (arith, c) in
    let inside : leb (suc (length ps)) (n - s) ≡ false = ground arith in rw (e, inside) refl

-- The packet at a place, and its number.
nth :
    (s i : ℕ) (q : Deq)
    → Counts s q
    → i < length q
    → (p : RawPkt) × (get_elem? q i ≡ some p) × (p.seq ≡ s + i)
nth s i [] c h = absurd (omega arith)
nth s zero (p ∷ ps) c h = (p, refl, omega (arith, c.0))
nth s (suc i) (p ∷ ps) c h =
    let (x, at, e) = nth (suc s) i ps c.1 (omega arith) in (x, at, omega (arith, e))

-- A packet whose number is in the list has no fate yet.
abbrev pub Waits : List ℕ → Deq → Type 0
Waits ns [] = Unit
Waits ns (p ∷ ps) = (is_in p.seq ns ≡ true → p.fate ≡ unknown) × Waits ns ps

Waits-nth :
    (ns : List ℕ) (q : Deq) (i : ℕ) (p : RawPkt)
    → Waits ns q
    → get_elem? q i ≡ some p
    → is_in p.seq ns ≡ true
    → p.fate ≡ unknown
Waits-nth ns [] i p w e h = cc
Waits-nth ns (x ∷ xs) zero p w e h =
    let same : x ≡ p = cc in subst (λ y. is_in y.seq ns ≡ true → y.fate ≡ unknown) same w.0 h
Waits-nth ns (x ∷ xs) (suc i) p w e h = Waits-nth ns xs i p w.1 e h

mark-other : (n : ℕ) (p : RawPkt) → n ≢ p.seq → mark (n ∷ []) p ≡ p
mark-other n p h = rw (==-ne n p.seq h) refl

mark-same : (n : ℕ) (p : RawPkt) → n ≡ p.seq → mark (n ∷ []) p ≡ with_fate bad p
mark-same n p h = let self : (n == p.seq) ≡ true = ground arith in rw self refl

unmarked_past : (n t : ℕ) (q : Deq) → Counts t q → n < t → map (mark (n ∷ [])) q ≡ q
unmarked_past n t [] c h = refl
unmarked_past n t (p ∷ ps) c h =
    rw (mark-other n p (λ e. omega (arith, e, c.0)), unmarked_past n (suc t) ps c.1 (omega arith))
      refl

set-mark :
    (s i n : ℕ) (q : Deq) (p : RawPkt)
    → Counts s q
    → n ≡ s + i
    → get_elem? q i ≡ some p
    → set q i (with_fate bad p) ≡ map (mark (n ∷ [])) q
set-mark s i n [] p c e at = cc
set-mark s zero n (x ∷ xs) p c e at =
    let same : x ≡ p = cc in
    rw (mark-same n x (omega (arith, c.0)), unmarked_past n (suc s) xs c.1 (omega arith), same) refl
set-mark s (suc i) n (x ∷ xs) p c e at =
    rw (mark-other n x (λ y. omega (arith, c.0, y)), set-mark (suc s) i n xs p c.1 (omega arith) at)
      refl

mark-mark : (n : ℕ) (ns : List ℕ) (p : RawPkt) → mark ns (mark (n ∷ []) p) ≡ mark (n ∷ ns) p
mark-mark n ns p = elim (Bool-cases (n == p.seq)) [
  | inl y ↦ elim (Bool-cases (is_in p.seq ns)) [ inl i ↦ rw (y, i) refl | inr o ↦ rw (y, o) refl ]
  | inr z ↦ rw z refl
]

marked_twice :
    (n : ℕ) (ns : List ℕ) (q : Deq) → map (mark ns) (map (mark (n ∷ [])) q) ≡ map (mark (n ∷ ns)) q
marked_twice n ns [] = refl
marked_twice n ns (p ∷ ps) = rw (mark-mark n ns p, marked_twice n ns ps) refl

unmarked_nil : (q : Deq) → map (mark []) q ≡ q
unmarked_nil [] = refl
unmarked_nil (p ∷ ps) = ap (◌∷◌ p) (unmarked_nil ps)

seq-mark : (ns : List ℕ) (p : RawPkt) → (mark ns p).seq ≡ p.seq
seq-mark ns p = elim (Bool-cases (is_in p.seq ns)) [ inl y ↦ rw y refl | inr n ↦ rw n refl ]

pub Counts-mark : (s : ℕ) (ns : List ℕ) (q : Deq) → Counts s q → Counts s (map (mark ns) q)
Counts-mark s ns [] c = tt
Counts-mark s ns (p ∷ ps) c = (seq-mark ns p ∙ c.0, Counts-mark (suc s) ns ps c.1)

Waits-mark :
    (n : ℕ) (ns : List ℕ) (q : Deq)
    → is_in n ns ≡ false
    → Waits (n ∷ ns) q
    → Waits ns (map (mark (n ∷ [])) q)
Waits-mark n ns [] f w = tt
Waits-mark n ns (p ∷ ps) f w = (first, Waits-mark n ns ps f w.1)
  where
    first : is_in (mark (n ∷ []) p).seq ns ≡ true → (mark (n ∷ []) p).fate ≡ unknown
    first h = elim (Bool-cases (n == p.seq)) [
      | inl y ↦ let e : n ≡ p.seq = ground arith in cc
      | inr z ↦ rw z (w.0 (rw z (rw z at h)))
    ]

mark_bad-map :
    (s i n : ℕ) (q : Deq) (p : RawPkt)
    → Counts s q
    → n ≡ s + i
    → get_elem? q i ≡ some p
    → p.fate ≡ unknown
    → mark_bad i q ≡ ok (map (mark (n ∷ [])) q)
unfolding mark_bad
mark_bad-map s i n q p c e at u = rw (mark_bad, at, u) (ap ok (set-mark s i n q p c e at))

Waits-head :
    (n : ℕ) (ns : List ℕ) (q : Deq) (i : ℕ) (p : RawPkt)
    → Waits (n ∷ ns) q
    → get_elem? q i ≡ some p
    → p.seq ≡ n
    → p.fate ≡ unknown
Waits-head n ns q i p w at e =
    let self : (n == p.seq) ≡ true = ground arith in Waits-nth (n ∷ ns) q i p w at (rw self refl)

pub length-mark : (ns : List ℕ) (q : Deq) → length (map (mark ns) q) ≡ length q
length-mark ns q = length-map q (mark ns)

pub mark_nacks-map :
    (s : ℕ) (ns : List ℕ) (q : Deq)
    → Counts s q
    → s + length q < 2 ^ 32
    → AreNacks s (s + length q) ns
    → Waits ns q
    → mark_nacks ns q ≡ ok (false, map (mark ns) q)
unfolding mark_nacks
mark_nacks-map s [] q c r a w = ap (λ x. ok (false, x)) (sym (unmarked_nil q))
mark_nacks-map s (n ∷ ns) q c r (l, h, fresh, a) w =
    let (p, at, e) = nth s (n - s) q c (omega arith) in
    let q1 = map (mark (n ∷ [])) q in
    let same : length q1 ≡ length q = length-mark (n ∷ []) q in
    rw
      (
        mark_nacks,
        get_ind_lem s n q c l h r,
        mark_bad-map s (n - s) n q p c (omega arith) at
            (Waits-head n ns q (n - s) p w at (omega (arith, e))),
      )
      (mark_nacks-map s ns q1 (Counts-mark s (n ∷ []) q c) (omega (arith, same))
          (subst (λ k. AreNacks s (s + k) ns) (sym same) a) (Waits-mark n ns q fresh w)
        ∙ ap (λ x. ok (false, x)) (marked_twice n ns q))
