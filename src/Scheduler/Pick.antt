-- ===== src/Scheduler/Pick.antt =====
-- The first loop of `PktScheduler::Dequeue`: which client is picked.
use wspace_controller.Prelude.{
  ℕ, zero, suc, ◌<◌, ◌≡◌, ap, ◌∙◌, true, false, List, [], ◌∷◌, ◌++◌, arith, length, Bool-cases,
  Option-cases, inl, inr,
}
use wspace_controller.Prelude.Result.{ok}
use wspace_controller.Map.{Map, has}
use wspace_controller.NodeId.{NodeId, node_id_eq}
use wspace_controller.Double.{Double}
use wspace_controller.Scheduler.Active.{ActiveList, remove}
use wspace_controller.Scheduler.Active.Laws.{IsSynced, remove-IsSynced, remove-none}
use wspace_controller.Scheduler.{Status, Picked, nobody, client, pick}

module _ {W : Type 0} where
  abbrev pub AreAbsent : Map NodeId (Status W) → List NodeId → Type 0
  AreAbsent stats [] = Unit
  AreAbsent stats (k ∷ ks) = (has k stats ≡ false) × AreAbsent stats ks

  -- What the first loop leaves: every id before the picked one had no status.
  abbrev pub PickSpec : Map NodeId (Status W) → ActiveList → Picked → Type 0
  PickSpec stats l (nobody l') = IsSynced l' × AreAbsent stats l.ids × (l'.ids ≡ [])
  PickSpec stats l (client id l') =
      (dropped : List NodeId) × IsSynced l'
      × (has id stats ≡ true)
      × AreAbsent stats dropped
      × (l.ids ≡ dropped ++ id ∷ l'.ids)

module _ {W : Type 0} ⦃d : Double W⦄ where
  pick_step :
      (stats : Map NodeId (Status W)) (l : ActiveList) (id : NodeId) (l' : ActiveList) (r : Picked)
      → has id stats ≡ false
      → l.ids ≡ id ∷ l'.ids
      → PickSpec stats l' r
      → PickSpec stats l r
  pick_step stats l id l' (nobody l'') gone e (v, absent, done) = (v, rw e (gone, absent), done)
  pick_step stats l id l' (client k l'') gone e (dropped, v, found, absent, split) =
      (id ∷ dropped, v, found, (gone, absent), e ∙ ap (◌∷◌ id) split)

  -- With fuel for each waiting id the first loop ends, at the oldest id that has a status.
  pub pick_lem :
      (n : ℕ) (stats : Map NodeId (Status W)) (l : ActiveList)
      → IsSynced l
      → length l.ids < n
      → (r : Picked) × (pick n stats l ≡ ok r) × PickSpec stats l r
  unfolding pick
  pick_lem zero stats l v h = absurd (omega arith)
  pick_lem (suc n) stats l v h = elim (Option-cases (remove l)) [
    | inl e ↦ let z = remove-none l e in (nobody l, rw (e, pick), (v, rw z tt, z))
    | inr ((id, l'), e) ↦
        let (v', ids_eq, _) = remove-IsSynced l id l' v e in
        elim (Bool-cases (has id stats)) [
          | inl found ↦ (client id l', rw (e, pick) (rw found), ([], v', found, tt, ids_eq))
          | inr gone ↦
              let (r, run, spec) = pick_lem n stats l' v' (omega (arith, ap length ids_eq)) in
              (r, rw (e, pick) (rw gone run), pick_step stats l id l' r gone ids_eq spec)
        ]
  ]
