-- ===== src/Routing/Files.antt =====
-- The text files of `RoutingTable`, in wspace_controller.cc: `PrintStats` and `PrintConflictGraph`, which
-- the R script reads, and `PrintRoutes`. Each is a list of lines; how a stream writes a number, and the
-- text of the time, are parameters. A read by `operator[]` enters what is missing.
use wspace_controller.Prelude.{
  ◌≡◌, refl, sym, ap, ◌∙◌, true, List, [], ◌∷◌, ◌++◌, ℕ, Option, none, some, map, Option-cases, inl,
  inr, or-true, ◌||◌, ◌&&◌,
}
use wspace_controller.Prelude.Int.{ℤ, pos, negsuc}
use wspace_controller.Map.{Map, find, put, get_or, has_elem, ◌=?◌, =?-refl}
use wspace_controller.Map.Laws.{put-found, get_or-find}
use wspace_controller.NodeId.{NodeId, node_id_eq}
use wspace_controller.Double.{Double, of_nat}
use wspace_controller.Routing.{Table, min_throughput, lookup_stats}
use wspace_controller.Routing.Update.{fill_stats}
use wspace_controller.Routing.Filling.{filled, fill_stats-filled}

module _ {W : Type 0} ⦃d : Double W⦄ (print_double : W → List ℕ) where
  -- The inner loop of `PrintStats`: the text of a row, and the row with what the reads enter.
  unfoldable pub print_row : List NodeId → Map NodeId W → List ℕ × Map NodeId W
  print_row [] row = ([], row)
  print_row (b ∷ bs) row =
      let t = get_or (of_nat 0) b row in
      let (text, row') = print_row bs (put b t row) in (print_double t ++ (b' ' ∷ text), row')

  -- `PrintStats`: the lines, and the table after it.
  unfoldable pub print_stats : List NodeId → List NodeId → Table W → List (List ℕ) × Table W
  unfolding print_row
  print_stats bs_ids [] stats = ([], stats)
  print_stats bs_ids (c ∷ cs) stats =
      let (line, row) = print_row bs_ids (get_or [] c stats) in
      let (lines, stats') = print_stats bs_ids cs (put c row stats) in (line ∷ lines, stats')

-- `PrintConflictGraph`: the lines, and the graph after it.
unfoldable pub print_conflict_graph :
    (ℤ → List ℕ) → List NodeId → Map NodeId NodeId → List (List ℕ) × Map NodeId NodeId
print_conflict_graph print_int [] g = ([], g)
print_conflict_graph print_int (b ∷ bs) g =
    let k = get_or (pos 0) b g in
    let (lines, g') = print_conflict_graph print_int bs (put b k g) in
    ((print_int b ++ (b' ' ∷ print_int k)) ∷ lines, g')

-- `PrintRoutes`: the text up to the duration and the time.
unfoldable print_routes : (ℤ → List ℕ) → List NodeId → Map NodeId NodeId → List ℕ
print_routes print_int [] route = []
print_routes print_int (c ∷ cs) route =
    print_int (get_or (negsuc 0) c route) ++ (b' ' ∷ print_routes print_int cs route)

get_or-none :
    {V : Type 0} (v : V) (k : NodeId) (m : Map NodeId V) → find k m ≡ none → get_or v k m ≡ v
unfolding get_or
get_or-none v k m f = rw (get_or, f) refl

module _ {W : Type 0} ⦃d : Double W⦄ (print_double : W → List ℕ) where
  -- The text of a row with these entries.
  abbrev pub row_text : (NodeId → W) → List NodeId → List ℕ
  row_text entry [] = []
  row_text entry (b ∷ bs) = print_double (entry b) ++ (b' ' ∷ row_text entry bs)

  -- A report, or the minimum where there is none.
  abbrev pub entry_of : Table W → NodeId → NodeId → W
  entry_of stats c b = elim (lookup_stats c b stats) [ none ↦ min_throughput | some t ↦ t ]

  print_row_lem :
      (entry : NodeId → W) (bs : List NodeId) (row : Map NodeId W)
      → ((b : NodeId) → has_elem b bs ≡ true → find b row ≡ some (entry b))
      → print_row print_double bs row ≡ (row_text entry bs, row)
  unfolding print_row
  print_row_lem entry [] row h = refl
  print_row_lem entry (b ∷ bs) row h =
      let at = h b (ap (λ x. x || has_elem b bs) (=?-refl b)) in
      let print = print_row print_double bs in
      ap (λ t. (print_double t ++ (b' ' ∷ (print (put b t row)).0), (print (put b t row)).1))
        (get_or-find (of_nat 0) b row (entry b) at)
      ∙ ap (λ r. (print_double (entry b) ++ (b' ' ∷ (print r).0), (print r).1))
          (put-found b (entry b) row at)
      ∙ ap (λ p. (print_double (entry b) ++ (b' ' ∷ p.0), p.1))
          (print_row_lem entry bs row (λ c e. h c (ap (λ x. (b =? c) || x) e ∙ or-true (b =? c))))

  -- An entry is in a row of the table.
  row-found :
      (c b : NodeId) (t : W) (stats : Table W)
      → lookup_stats c b stats ≡ some t
      → find c stats ≡ some (get_or [] c stats)
  unfolding lookup_stats find
  row-found c b t stats e = elim (Option-cases (find c stats)) [
    | inl n ↦ cc (sym (ap (find b) (get_or-none [] c stats n)) ∙ e)
    | inr (row, f) ↦ f ∙ ap some (sym (get_or-find [] c stats row f))
  ]

  print_stats_lem :
      (entry : NodeId → NodeId → W) (b : NodeId) (bs cs : List NodeId) (stats : Table W)
      → ((c k : NodeId)
          → has_elem c cs ≡ true
          → has_elem k (b ∷ bs) ≡ true
          → lookup_stats c k stats ≡ some (entry c k))
      → print_stats print_double (b ∷ bs) cs stats
        ≡ (map (λ c. row_text (entry c) (b ∷ bs)) cs, stats)
  unfolding print_stats lookup_stats
  print_stats_lem entry b bs [] stats h = refl
  print_stats_lem entry b bs (c ∷ cs) stats h =
      let self = ap (λ x. x || has_elem c cs) (=?-refl c) in
      let known =
        row-found c b (entry c b) stats (h c b self (ap (λ x. x || has_elem b bs) (=?-refl b))) in
      let row = get_or [] c stats in
      let print = print_stats print_double (b ∷ bs) cs in
      let text = row_text (entry c) (b ∷ bs) in
      ap (λ p. (p.0 ∷ (print (put c p.1 stats)).0, (print (put c p.1 stats)).1))
        (print_row_lem (entry c) (b ∷ bs) row (λ k e. h c k self e))
      ∙ ap (λ s. (text ∷ (print s).0, (print s).1)) (put-found c row stats known)
      ∙ ap (λ p. (text ∷ p.0, p.1))
          (print_stats_lem entry b bs cs stats
            (λ x k e. h x k (ap (λ y. (c =? x) || y) e ∙ or-true (c =? x))))

  entry-filled :
      (o : Option W) → filled true o ≡ some (elim o [ none ↦ min_throughput | some t ↦ t ])
  entry-filled none = refl
  entry-filled (some t) = refl

  -- With one station at least, `PrintStats` after the loops that fill the table for the script writes a
  -- line for each client, with an entry for each station, both in the order of their lists: the throughput
  -- that is reported, or the minimum where there is no report. It leaves the table as it is.
  pub print_stats-fill_stats :
      (b : NodeId) (bs cs : List NodeId) (stats : Table W)
      → print_stats print_double (b ∷ bs) cs (fill_stats (b ∷ bs) cs stats)
        ≡ (map (λ c. row_text (entry_of stats c) (b ∷ bs)) cs, fill_stats (b ∷ bs) cs stats)
  print_stats-fill_stats b bs cs stats =
      print_stats_lem (entry_of stats) b bs cs (fill_stats (b ∷ bs) cs stats) (λ c k hc hk.
        fill_stats-filled c k (b ∷ bs) cs stats
        ∙ ap (λ t. filled t (lookup_stats c k stats)) (ap (λ x. x && has_elem k (b ∷ bs)) hc ∙ hk)
        ∙ entry-filled (lookup_stats c k stats))
