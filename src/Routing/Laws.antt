-- ===== src/Routing/Laws.antt =====
-- The choice of the base station, and the loop that sets the routes.
use mathlib.Core.Bool.{true≢false}
use mathlib.Core.Option.{some-injective}
use wspace_controller.Prelude.{
  ◌≡◌, refl, sym, ap, ◌∙◌, subst, true, false, List, [], ◌∷◌, none, some, arith, if◌then◌else◌,
  Bool-cases, Option-cases, inl, inr, ◌⊎◌,
}
use wspace_controller.Prelude.Int.{ℤ, pos, negsuc}
use wspace_controller.Prelude.Result.{ok}
use wspace_controller.Map.{Map, find, has, get_or}
use wspace_controller.Map.Laws.{
  get_or-find, find-cons_old, find-cons_self, find-cons_cases, find-nil, HasUniqueKeys,
}
use wspace_controller.NodeId.{NodeId, node_id_eq}
use wspace_controller.Double.{Double, of_nat, whole_double}
use wspace_controller.Routing.{
  Table, no_pair, max_pair, find_max_throughput_bs, route_max, lookup_stats, min_throughput,
}

-- What `<` does on doubles of which none is NaN.
pub record IsOrdered (W : Type 0) ⦃d : Double W⦄ : Type 0 where
  pub asym : (a b : W) → d.lt a b ≡ true → d.lt b a ≡ false
  pub trans : (a b c : W) → d.lt b a ≡ false → d.lt c b ≡ false → d.lt c a ≡ false
  pub below_zero : d.lt (d.of_int (pos 0)) (d.of_int (negsuc 0)) ≡ false

pub whole-IsOrdered : IsOrdered ℤ
whole-IsOrdered = record {
  asym = λ a b h. ground arith;
  trans = λ a b c h k. ground arith;
  below_zero = refl;
}

module _ {W : Type 0} ⦃d : Double W⦄ where
  -- What the loop of `UpdateRoutesMaxThroughput` decides for a client: the station of the largest
  -- throughput in its row, if that is above 0, and else the first station, at the least throughput.
  abbrev pub BestSpec : Table W → NodeId → NodeId → NodeId × W → Type 0
  BestSpec stats default_bs client_id (b, t) =
      ((lookup_stats client_id b stats ≡ some t)
        × (d.lt (of_nat 0) t ≡ true)
        × ((b' : NodeId) (t' : W) → lookup_stats client_id b' stats ≡ some t' → d.lt t t' ≡ false))
      ⊎ ((b ≡ default_bs)
          × (t ≡ min_throughput)
          × ((b' : NodeId) (t' : W)
              → lookup_stats client_id b' stats ≡ some t'
              → d.lt (of_nat 0) t' ≡ false))

  pub lookup_stats-row :
      (c b : NodeId) (stats : Table W) (row : Map NodeId W)
      → find c stats ≡ some row
      → lookup_stats c b stats ≡ find b row
  unfolding lookup_stats
  lookup_stats-row c b stats row f = ap (find b) (get_or-find [] c stats row f)

  pub lookup_stats-none :
      (c b : NodeId) (stats : Table W) (t : W)
      → find c stats ≡ none
      → lookup_stats c b stats ≡ some t
      → ⊥
  unfolding lookup_stats get_or
  lookup_stats-none c b stats t gone f = find-nil b t (rw (gone, get_or) at f)

  route_max-none :
      (default_bs : NodeId) (rest : List NodeId) (stats : Table W) (c : NodeId)
      → find c stats ≡ none
      → route_max (default_bs ∷ rest) stats c ≡ ok (default_bs, min_throughput)
  unfolding route_max
  route_max-none default_bs rest stats c gone = rw (gone, find_max_throughput_bs) refl

  route_max-row :
      (default_bs : NodeId) (rest : List NodeId) (stats : Table W) (c : NodeId) (row : Map NodeId W)
      → find c stats ≡ some row
      → route_max (default_bs ∷ rest) stats c
        ≡ ok (
            if d.lt (of_nat 0) (max_pair no_pair row).1
            then max_pair no_pair row
            else (default_bs, min_throughput))
  unfolding route_max
  route_max-row default_bs rest stats c row f =
      rw (f, find_max_throughput_bs)
        (elim (Bool-cases (d.lt (of_nat 0) (max_pair no_pair row).1)) [
          | inl y ↦ rw y
          | inr n ↦ rw n
        ])

module _ {W : Type 0} ⦃d : Double W⦄ (laws : IsOrdered W) where
  open laws use {asym, trans, below_zero}

  irrefl : (a : W) → d.lt a a ≡ false
  irrefl a = elim (Bool-cases (d.lt a a)) [ inl y ↦ asym a a y | inr n ↦ n ]

  -- A pair that bounds a row and stands in it, or is the one that the search began with.
  abbrev IsBest : NodeId × W → Map NodeId W → NodeId × W → Type 0
  IsBest best row m =
      (d.lt m.1 best.1 ≡ false)
      × ((b : NodeId) (t : W) → find b row ≡ some t → d.lt m.1 t ≡ false)
      × ((m ≡ best) ⊎ (find m.0 row ≡ some m.1))

  cons_source :
      (k : NodeId) (x : W) (row : Map NodeId W) (m : NodeId × W)
      → has k row ≡ false
      → (m ≡ (k, x)) ⊎ (find m.0 row ≡ some m.1)
      → find m.0 ((k, x) ∷ row) ≡ some m.1
  cons_source k x row m fresh (inl e) =
      subst (λ (p : NodeId × W). find p.0 ((k, x) ∷ row) ≡ some p.1) (sym e)
        (find-cons_self k x row)
  cons_source k x row m fresh (inr f) = find-cons_old m.0 k m.1 x row fresh f

  cons-IsBest :
      (k : NodeId) (x : W) (row : Map NodeId W) (best m : NodeId × W)
      → has k row ≡ false
      → IsBest (if d.lt best.1 x then (k, x) else best) row m
      → IsBest best ((k, x) ∷ row) m
  cons-IsBest k x row best m fresh h = elim (Bool-cases (d.lt best.1 x)) [
    | inl y ↦
        let (above, bound, source) = subst (λ b. IsBest (if b then (k, x) else best) row m) y h in
        (
          trans best.1 x m.1 (asym best.1 x y) above,
          λ b t f. elim (find-cons_cases b k t x row f) [
            | inl e ↦ subst (λ z. d.lt m.1 z ≡ false) (some-injective x t e) above
            | inr old ↦ bound b t old
          ],
          inr (cons_source k x row m fresh source),
        )
    | inr n ↦
        let (above, bound, source) = subst (λ b. IsBest (if b then (k, x) else best) row m) n h in
        (
          above,
          λ b t f. elim (find-cons_cases b k t x row f) [
            | inl e ↦
                subst (λ z. d.lt m.1 z ≡ false) (some-injective x t e) (trans x best.1 m.1 n above)
            | inr old ↦ bound b t old
          ],
          elim source [ inl e ↦ inl e | inr f ↦ inr (cons_source k x row m fresh (inr f)) ],
        )
  ]

  max_pair-IsBest :
      (best : NodeId × W) (row : Map NodeId W)
      → HasUniqueKeys row
      → IsBest best row (max_pair best row)
  unfolding max_pair
  max_pair-IsBest best [] u = (irrefl best.1, λ b t e. nothing_found b t e, inl refl)
    where
      nothing_found : (b : NodeId) (t : W) → find {V = W} b [] ≡ some t → d.lt best.1 t ≡ false
      nothing_found b t e = absurd (find-nil b t e)
  max_pair-IsBest best ((k, x) ∷ row) u =
      cons-IsBest k x row best _ u.0
        (max_pair-IsBest (if d.lt best.1 x then (k, x) else best) row u.1)

  row-BestSpec :
      (stats : Table W) (default_bs client_id : NodeId) (row : Map NodeId W) (m : NodeId × W)
      → find client_id stats ≡ some row
      → IsBest no_pair row m
      → BestSpec stats default_bs client_id
          (if d.lt (of_nat 0) m.1 then m else (default_bs, min_throughput))
  row-BestSpec stats default_bs client_id row m f (above, bound, source) =
      elim (Bool-cases (d.lt (of_nat 0) m.1)) [
        | inl y ↦ rw y (
            inl (
              lookup_stats-row client_id m.0 stats row f ∙ in_row y source,
              y,
              λ b t h. bound b t (sym (lookup_stats-row client_id b stats row f) ∙ h),
            ))
        | inr n ↦ rw n (
            inr (
              refl,
              refl,
              λ b t h.
                  trans t m.1 (of_nat 0)
                    (bound b t (sym (lookup_stats-row client_id b stats row f) ∙ h)) n,
            ))
      ]
    where
      in_row :
          d.lt (of_nat 0) m.1 ≡ true
          → (m ≡ no_pair) ⊎ (find m.0 row ≡ some m.1)
          → find m.0 row ≡ some m.1
      in_row y (inl e) =
          absurd
            (true≢false (sym y ∙ (ap (λ (p : NodeId × W). d.lt (of_nat 0) p.1) e ∙ below_zero)))
      in_row y (inr g) = g

  -- For doubles without a NaN, over a table with one entry a station: the choice for a client never
  -- fails; it is a station with the largest throughput reported of the client where that is above 0, and
  -- else the first station with the least throughput.
  pub route_max_lem :
      (default_bs : NodeId) (rest : List NodeId) (stats : Table W) (client_id : NodeId)
      → ((row : Map NodeId W) → find client_id stats ≡ some row → HasUniqueKeys row)
      → (p : NodeId × W) × (route_max (default_bs ∷ rest) stats client_id ≡ ok p)
        × BestSpec stats default_bs client_id p
  route_max_lem default_bs rest stats client_id u = elim (Option-cases (find client_id stats)) [
    | inl gone ↦ (
      (default_bs, min_throughput),
      route_max-none default_bs rest stats client_id gone,
      inr (refl, refl, λ b t f. absurd (lookup_stats-none client_id b stats t gone f)),
    )
    | inr (row, f) ↦ (
      (if d.lt (of_nat 0) (max_pair no_pair row).1
          then max_pair no_pair row
          else (default_bs, min_throughput)),
      route_max-row default_bs rest stats client_id row f,
      row-BestSpec stats default_bs client_id row (max_pair no_pair row) f
          (max_pair-IsBest no_pair row (u row f)),
    )
  ]
