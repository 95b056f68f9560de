-- ===== src/Scheduler/Queue/Laws.antt =====
-- The packet queue is a bounded FIFO.
use wspace_controller.Prelude.{
  ℕ, zero, suc, ◌+◌, ◌≤◌, ◌<◌, ◌≡◌, refl, Bool, true, false, List, [], ◌∷◌, ◌++◌, arith, length,
  take, length-append, append_assoc, append-nil, map, ap, ◌∙◌, length-map, if◌then◌else◌,
  Bool-cases, inl, inr,
}
use wspace_controller.Prelude.Result.{Result, ok, err, ◌>>=◌, assert_failed}
use wspace_controller.Scheduler.Queue.{
  Packet, PktQueue, new_queue, enqueue, dequeue, peek_top_pkt_size, is_full, get_length,
}

-- Every stored packet has a length, as `Enqueue` checks.
abbrev pub HaveLength : List Packet → Type 0
HaveLength [] = Unit
HaveLength (p ∷ ps) = (0 < p.len) × HaveLength ps

pub record IsValid (q : PktQueue) : Type 0 where
  pub bounded : length q.packets ≤ q.max_size
  pub lengths : HaveLength q.packets

pub append-HaveLength :
    (ps : List Packet) (p : Packet) → HaveLength ps → 0 < p.len → HaveLength (ps ++ p ∷ [])
append-HaveLength [] p h l = (l, tt)
append-HaveLength (q ∷ ps) p h l = (h.0, append-HaveLength ps p h.1 l)

-- What `Enqueue` may do: end the program on length 0, refuse at a full queue and change nothing, or
-- store a copy of the first `len` bytes behind all others.
pub enqueue_cases :
    (pkt : List ℕ) (len : ℕ) (q : PktQueue) {r : Bool} {q' : PktQueue}
    → IsValid q
    → enqueue pkt len q ≡ ok (r, q')
    → IsValid q'
      × (0 < len)
      × (q'.max_size ≡ q.max_size)
      × (r ≡ true
          → (length q.packets < q.max_size)
            × (q'.packets ≡ q.packets ++ record { bytes = take len pkt; len = len } ∷ []))
      × (r ≡ false → (length q.packets ≡ q.max_size) × (q' ≡ q))
unfolding enqueue is_full get_length
enqueue_cases pkt len q v e =
    let p : Packet = record { bytes = take len pkt; len = len } in
    ground (arith, append-HaveLength q.packets p v.lengths, length-append q.packets (p ∷ []))

pub enqueue_total :
    (pkt : List ℕ) (len : ℕ) (q : PktQueue)
    → 0 < len
    → (stored : Bool) × (q' : PktQueue) × (enqueue pkt len q ≡ ok (stored, q'))
unfolding enqueue
enqueue_total pkt len q h = elim (Bool-cases (is_full q)) [
  | inl full ↦ (false, q, rw full (ground arith))
  | inr room ↦ (
    true,
    record q { packets = q.packets ++ record { bytes = take len pkt; len = len } ∷ [] },
    rw room (ground arith),
  )
]

-- `Enqueue` for each packet, with its whole length; a packet that is refused stops the run.
pub enqueue_all : List (List ℕ) → PktQueue → Result PktQueue
enqueue_all [] q = ok q
enqueue_all (pkt ∷ pkts) q = do
  (stored, q') ← enqueue pkt (length pkt) q
  if stored then enqueue_all pkts q' else err assert_failed

-- So many calls of `Dequeue`.
pub dequeue_all : ℕ → PktQueue → Result (List Packet × PktQueue)
dequeue_all zero q = ok ([], q)
dequeue_all (suc n) q = do (p, q') ← dequeue q; (ps, q'') ← dequeue_all n q'; ok (p ∷ ps, q'')

abbrev pub AreNonempty : List (List ℕ) → Type 0
AreNonempty [] = Unit
AreNonempty (p ∷ ps) = (0 < length p) × AreNonempty ps

abbrev pub whole_pkt : List ℕ → Packet
whole_pkt pkt = record { bytes = pkt; len = length pkt }

take-length : (xs : List ℕ) → take (length xs) xs ≡ xs
take-length [] = refl
take-length (x ∷ xs) = ap (◌∷◌ x) (take-length xs)

enqueue-room :
    (pkt : List ℕ) (q : PktQueue)
    → 0 < length pkt
    → length q.packets < q.max_size
    → enqueue pkt (length pkt) q ≡ ok (true, record q { packets = q.packets ++ whole_pkt pkt ∷ [] })
unfolding enqueue is_full get_length
enqueue-room pkt q h room = ground (arith, take-length pkt)

enqueue_all_lem :
    (pkts : List (List ℕ)) (q : PktQueue)
    → AreNonempty pkts
    → length q.packets + length pkts ≤ q.max_size
    → enqueue_all pkts q ≡ ok (record q { packets = q.packets ++ map whole_pkt pkts })
unfolding enqueue_all
enqueue_all_lem [] q h room = rw (append-nil q.packets)
enqueue_all_lem (pkt ∷ pkts) q h room =
    let q' : PktQueue = record q { packets = q.packets ++ whole_pkt pkt ∷ [] } in
    let room' : length q'.packets + length pkts ≤ q.max_size =
      omega (arith, length-append q.packets (whole_pkt pkt ∷ [])) in
    rw (enqueue-room pkt q h.0 (omega arith)) (
      enqueue_all_lem pkts q' h.1 room'
      ∙ ap (λ ps. ok (record q { packets = ps }))
          (append_assoc q.packets (whole_pkt pkt ∷ []) (map whole_pkt pkts)))

dequeue_all_lem :
    (ps : List Packet) (n : ℕ)
    → dequeue_all (length ps) (record { max_size = n; packets = ps }) ≡ ok (ps, new_queue n)
unfolding dequeue_all dequeue new_queue
dequeue_all_lem [] n = refl
dequeue_all_lem (p ∷ ps) n = rw (dequeue_all_lem ps n)

enqueue_all-new_queue :
    (pkts : List (List ℕ)) (n : ℕ)
    → AreNonempty pkts
    → length pkts ≤ n
    → enqueue_all pkts (new_queue n) ≡ ok (record { max_size = n; packets = map whole_pkt pkts })
unfolding new_queue
enqueue_all-new_queue pkts n h fit = enqueue_all_lem pkts (new_queue n) h (omega arith)

-- Packets of at least one byte that fit into an empty queue come out again, each whole and in the
-- order in which they went in, and leave the queue empty.
pub dequeue_all-enqueue_all :
    (pkts : List (List ℕ)) (n : ℕ)
    → AreNonempty pkts
    → length pkts ≤ n
    → (enqueue_all pkts (new_queue n) >>= dequeue_all (length pkts))
      ≡ ok (map whole_pkt pkts, new_queue n)
dequeue_all-enqueue_all pkts n h fit =
    rw (enqueue_all-new_queue pkts n h fit, ← length-map pkts whole_pkt)
      (dequeue_all_lem (map whole_pkt pkts) n)

pub HaveLength-suffix : (ps qs : List Packet) → HaveLength (ps ++ qs) → HaveLength qs
HaveLength-suffix [] qs h = h
HaveLength-suffix (p ∷ ps) qs h = HaveLength-suffix ps qs h.1

pub length-suffix-le : (ps qs : List Packet) → length qs ≤ length (ps ++ qs)
length-suffix-le ps qs = omega (arith, length-append ps qs)

-- The length 0 of `PeekTopPktSize` marks the empty queue.
pub peek_top_pkt_size-zero :
    (q : PktQueue) → HaveLength q.packets → peek_top_pkt_size q ≡ 0 → q.packets ≡ []
unfolding peek_top_pkt_size
peek_top_pkt_size-zero q h e = go q.packets h e
  where
    go :
        (ps : List Packet)
        → HaveLength ps
        → (let z : ℕ = elim ps [ [] ↦ 0 | p ∷ rest ↦ p.len ] in z ≡ 0)
        → ps ≡ []
    go [] h e = refl
    go (p ∷ ps) h e = absurd (omega arith)

pub peek_top_pkt_size-nil : (q : PktQueue) → q.packets ≡ [] → peek_top_pkt_size q ≡ 0
unfolding peek_top_pkt_size
peek_top_pkt_size-nil q e = ground arith
