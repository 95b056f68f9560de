-- ===== src/Controller/Laws.antt =====
-- What the statistics that the controller keeps are.
use wspace_controller.Prelude.{
  ℕ, ◌≡◌, refl, sym, ap, ◌∙◌, Bool, true, false, ◌&&◌, List, [], ◌∷◌, Option, some, ltb,
  if◌then◌else◌, Bool-cases, and-true, inl, inr,
}
use wspace_controller.Map.{put, has, get_or, update, ◌=?◌}
use wspace_controller.Map.Laws.{find-put, get_or-put, get_or-update}
use wspace_controller.Prelude.Int.{eqb_ℤ_iff}
use wspace_controller.NodeId.{NodeId, node_id_eq}
use wspace_controller.Double.{Double}
use wspace_controller.Routing.{Table, update_stats, lookup_stats}
use wspace_controller.Controller.{WspaceController, BsStatsPkt, seq_at, set_seq, recv_stats}

pub seq_at-set_seq :
    (b c b' c' : NodeId) (s : ℕ) (t : Table ℕ)
    → seq_at b c (set_seq b' c' s t) ≡ (if (b' =? b) && (c' =? c) then s else seq_at b c t)
unfolding seq_at set_seq update
seq_at-set_seq b c b' c' s t =
    let inner : get_or [] b (set_seq b' c' s t)
        ≡ (if b' =? b then put c' s (get_or [] b t) else get_or [] b t) =
      get_or-update [] b b' (put c' s) t in
    elim (Bool-cases (b' =? b)) [
      | inl y ↦ rw (seq_at, inner, y) (get_or-put 0 s c c' (get_or [] b t))
      | inr n ↦ rw (seq_at, inner, n)
    ]

pub lookup_stats-update_stats :
    {W : Type 0} ⦃d : Double W⦄ (b c b' c' : NodeId) (v : W) (t : Table W)
    → lookup_stats c b (update_stats c' b' v t)
      ≡ (if (b' =? b) && (c' =? c) then some v else lookup_stats c b t)
unfolding lookup_stats update_stats update
lookup_stats-update_stats b c b' c' v t =
    let inner : get_or [] c (update_stats c' b' v t)
        ≡ (if c' =? c then put b' v (get_or [] c t) else get_or [] c t) =
      get_or-update [] c c' (put b' v) t in
    elim (Bool-cases (c' =? c)) [
      | inl y ↦ elim (Bool-cases (b' =? b)) [
        | inl x ↦ rw (lookup_stats, inner, y, find-put b b' v (get_or [] c t), x)
        | inr x ↦ rw (lookup_stats, inner, y, find-put b b' v (get_or [] c t), x)
      ]
      | inr n ↦ elim (Bool-cases (b' =? b)) [
        | inl x ↦ rw (lookup_stats, inner, n, x)
        | inr x ↦ rw (lookup_stats, inner, n, x)
      ]
    ]

and-false :
    {A : Type 0} (a b t : Bool) (x y : A) → (a && b) ≡ false → (if a && b && t then x else y) ≡ y
and-false true true t x y e = cc
and-false true false t x y e = refl
and-false false b t x y e = refl

module _ {W : Type 0} ⦃d : Double W⦄ where
  -- What is known of one client at one station: the newest number, and the throughput.
  abbrev pub known_at : NodeId → NodeId → WspaceController W → ℕ × Option W
  known_at b c s = (seq_at b c s.current_seq, lookup_stats c b s.bs_stats_tbl)

  -- The packets of that client and that station alone, of which each counts that is newer than all
  -- before it.
  pub newest : NodeId → NodeId → List (BsStatsPkt W) → ℕ × Option W → ℕ × Option W
  newest b c [] k = k
  newest b c (p ∷ ps) k = newest b c ps (
      if (p.bs_id =? b) && (p.client_id =? c) && ltb k.0 p.seq
      then (p.seq, some p.throughput)
      else k)

  -- `RecvFromBS` on one packet after the other.
  unfoldable pub recv_all : List (BsStatsPkt W) → WspaceController W → WspaceController W
  recv_all [] s = s
  recv_all (p ∷ ps) s = recv_all ps (recv_stats p s)

  abbrev pub is_accepted : BsStatsPkt W → WspaceController W → Bool
  is_accepted p s =
      has p.bs_id s.bs_ip_tbl
      && has p.client_id s.client_ip_tbl
      && ltb (seq_at p.bs_id p.client_id s.current_seq) p.seq

  abbrev pub accepted : BsStatsPkt W → WspaceController W → WspaceController W
  accepted p s = record s {
    current_seq = set_seq p.bs_id p.client_id p.seq s.current_seq;
    bs_stats_tbl = update_stats p.client_id p.bs_id p.throughput s.bs_stats_tbl;
  }

  known_accepted :
      (b c : NodeId) (p : BsStatsPkt W) (s : WspaceController W)
      → known_at b c (accepted p s) ≡ (
          if (p.bs_id =? b) && (p.client_id =? c)
          then (p.seq, some p.throughput)
          else known_at b c s)
  known_accepted b c p s =
      let e = seq_at-set_seq b c p.bs_id p.client_id p.seq s.current_seq in
      let f = lookup_stats-update_stats b c p.bs_id p.client_id p.throughput s.bs_stats_tbl in
      elim (Bool-cases ((p.bs_id =? b) && (p.client_id =? c))) [
        | inl y ↦ rw (e, f, y)
        | inr n ↦ rw (e, f, n)
      ]

  accept_same :
      (b c : NodeId) (p : BsStatsPkt W) (s : WspaceController W)
      → ((p.bs_id =? b) && (p.client_id =? c)) ≡ true
      → has b s.bs_ip_tbl ≡ true
      → has c s.client_ip_tbl ≡ true
      → is_accepted p s ≡ ltb (seq_at b c s.current_seq) p.seq
  accept_same b c p s y hb hc =
      let (yb, yc) = and-true (p.bs_id =? b) (p.client_id =? c) y in
      let eb : b ≡ p.bs_id = sym ((eqb_ℤ_iff p.bs_id b).0 yb) in
      let ec : c ≡ p.client_id = sym ((eqb_ℤ_iff p.client_id c).0 yc) in rw (← eb, ← ec, hb, hc)

  pub recv_accepted :
      (p : BsStatsPkt W) (s : WspaceController W)
      → is_accepted p s ≡ true
      → recv_stats p s ≡ accepted p s
  unfolding recv_stats
  recv_accepted p s a = rw (a)

  pub recv_refused :
      (p : BsStatsPkt W) (s : WspaceController W) → is_accepted p s ≡ false → recv_stats p s ≡ s
  unfolding recv_stats
  recv_refused p s a = rw (a)

  recv_known :
      (b c : NodeId) (p : BsStatsPkt W) (s : WspaceController W)
      → has b s.bs_ip_tbl ≡ true
      → has c s.client_ip_tbl ≡ true
      → known_at b c (recv_stats p s) ≡ (
          if (p.bs_id =? b) && (p.client_id =? c) && ltb (seq_at b c s.current_seq) p.seq
          then (p.seq, some p.throughput)
          else known_at b c s)
  unfolding recv_stats
  recv_known b c p s hb hc = elim (Bool-cases ((p.bs_id =? b) && (p.client_id =? c))) [
    | inl y ↦
        let newer = accept_same b c p s y hb hc in
        let (yb, yc) = and-true (p.bs_id =? b) (p.client_id =? c) y in
        elim (Bool-cases (is_accepted p s)) [
          | inl a ↦
              ap (known_at b c) (recv_accepted p s a)
              ∙ known_accepted b c p s
              ∙ rw (yb, yc, sym newer ∙ a)
          | inr r ↦ ap (known_at b c) (recv_refused p s r) ∙ rw (yb, yc, sym newer ∙ r)
        ]
    | inr n ↦
        let kept : (if (p.bs_id =? b) && (p.client_id =? c) && ltb (seq_at b c s.current_seq) p.seq
              then (p.seq, some p.throughput)
              else known_at b c s)
            ≡ known_at b c s =
          and-false (p.bs_id =? b) (p.client_id =? c) _ _ _ n in
        elim (Bool-cases (is_accepted p s)) [
          | inl a ↦ ap (known_at b c) (recv_accepted p s a) ∙ known_accepted b c p s ∙ rw (n)
          | inr r ↦ ap (known_at b c) (recv_refused p s r) ∙ sym kept
        ]
  ]

  recv_members :
      (p : BsStatsPkt W) (s : WspaceController W)
      → ((recv_stats p s).bs_ip_tbl ≡ s.bs_ip_tbl)
        × ((recv_stats p s).client_ip_tbl ≡ s.client_ip_tbl)
  unfolding recv_stats
  recv_members p s = elim (Bool-cases (is_accepted p s)) [
    | inl y ↦ rw (y) (refl, refl)
    | inr n ↦ rw (n) (refl, refl)
  ]

  -- For a station and a client of the controller, after any sequence of packets of statistics, the
  -- number and the throughput stored for the two are those of their newest packet: old, repeated and
  -- unknown packets, and the packets of others, change nothing of it.
  pub recv_all_lem :
      (b c : NodeId) (ps : List (BsStatsPkt W)) (s : WspaceController W)
      → has b s.bs_ip_tbl ≡ true
      → has c s.client_ip_tbl ≡ true
      → known_at b c (recv_all ps s) ≡ newest b c ps (known_at b c s)
  unfolding recv_all newest
  recv_all_lem b c [] s hb hc = refl
  recv_all_lem b c (p ∷ ps) s hb hc =
      let (e, f) = recv_members p s in
      recv_all_lem b c ps (recv_stats p s) (ap (has b) e ∙ hb) (ap (has c) f ∙ hc)
      ∙ ap (newest b c ps) (recv_known b c p s hb hc)
