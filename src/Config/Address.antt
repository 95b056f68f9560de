-- ===== src/Config/Address.antt =====
-- `ParseIP`: which address each id gets, and when the program ends instead.
use wspace_controller.Prelude.{
  ℕ, zero, suc, ◌<◌, ◌≤◌, ◌≡◌, refl, ap, subst, ◌∙◌, false, List, [], ◌∷◌, some, arith, length,
  take, get_elem?, inl, inr, or-false, ◌⊎◌,
}
use mathlib.Core.Option.{some-injective}
use wspace_controller.Prelude.Result.{ok, err, exited}
use wspace_controller.Map.{Map, find, put, has_elem, ◌=?◌}
use wspace_controller.Map.Laws.{find-put, find-put_self}
use wspace_controller.NodeId.{NodeId, node_id_eq}
use wspace_controller.Scheduler.Active.Laws.{AreDistinct}
use wspace_controller.Text.Laws.{join, AreFields, fields-join}
use wspace_controller.Config.{parse_addresses, parse_ip}

-- The table gives each id the address at its place, cut to 16 bytes, and keeps all other entries: those of
-- ids outside the list, and of ids for which there is no address.
pub record Assigns (addrs : List (List ℕ)) (ids : List NodeId) (t t' : Map NodeId (List ℕ))
    : Type 0 where
  pub given :
      (i : ℕ) (id : NodeId) (addr : List ℕ)
      → get_elem? ids i ≡ some id
      → get_elem? addrs i ≡ some addr
      → find id t' ≡ some (take 16 addr)
  pub kept : (id : NodeId) → has_elem id (take (length addrs) ids) ≡ false → find id t' ≡ find id t

parse_addresses-too_many :
    (addrs : List (List ℕ)) (ids : List NodeId) (t : Map NodeId (List ℕ))
    → length ids < length addrs
    → parse_addresses addrs ids t ≡ err exited
unfolding parse_addresses
parse_addresses-too_many [] ids t h = absurd (omega arith)
parse_addresses-too_many (a ∷ rest) [] t h = refl
parse_addresses-too_many (a ∷ rest) (id ∷ ids) t h =
    parse_addresses-too_many rest ids (put id (take 16 a) t) (omega arith)

not_in_take :
    (n : ℕ) (id : NodeId) (ids : List NodeId)
    → has_elem id ids ≡ false
    → has_elem id (take n ids) ≡ false
not_in_take zero id ids h = refl
not_in_take (suc n) id [] h = refl
not_in_take (suc n) id (x ∷ ids) h =
    let (other, out) = or-false (x =? id) (has_elem id ids) h in
    rw (other, not_in_take n id ids out) refl

Assigns-cons :
    (a : List ℕ) (id : NodeId) (addrs : List (List ℕ)) (ids : List NodeId)
    (t t' : Map NodeId (List ℕ))
    → has_elem id ids ≡ false
    → Assigns addrs ids (put id (take 16 a) t) t'
    → Assigns (a ∷ addrs) (id ∷ ids) t t'
Assigns-cons a id addrs ids t t' fresh v = record { given = given'; kept = kept' }
  where
    given' :
        (i : ℕ) (j : NodeId) (addr : List ℕ)
        → get_elem? (id ∷ ids) i ≡ some j
        → get_elem? (a ∷ addrs) i ≡ some addr
        → find j t' ≡ some (take 16 addr)
    given' zero j addr e f =
        subst (λ k. find k t' ≡ some (take 16 addr)) (some-injective _ _ e)
          (v.kept id (not_in_take (length addrs) id ids fresh)
            ∙ find-put_self id (take 16 a) t
            ∙ ap (λ x. some (take 16 x)) (some-injective _ _ f))
    given' (suc i) j addr e f = v.given i j addr e f

    kept' :
        (j : NodeId)
        → has_elem j (take (length (a ∷ addrs)) (id ∷ ids)) ≡ false
        → find j t' ≡ find j t
    kept' j e =
        let (other, out) = or-false (id =? j) (has_elem j (take (length addrs) ids)) e in
        v.kept j out ∙ rw (find-put j id (take 16 a) t, other) refl

parse_addresses-Assigns :
    (addrs : List (List ℕ)) (ids : List NodeId) (t : Map NodeId (List ℕ))
    → AreDistinct ids
    → length addrs ≤ length ids
    → (t' : Map NodeId (List ℕ)) × (parse_addresses addrs ids t ≡ ok t') × Assigns addrs ids t t'
unfolding parse_addresses
parse_addresses-Assigns [] ids t u h =
    (t, refl, record { given = λ i id addr e f. cc; kept = λ id e. refl })
parse_addresses-Assigns (a ∷ rest) [] t u h = absurd (omega arith)
parse_addresses-Assigns (a ∷ rest) (id ∷ ids) t u h =
    let (t', run, v) = parse_addresses-Assigns rest ids (put id (take 16 a) t) u.1 (omega arith) in
    (t', run, Assigns-cons a id rest ids t t' u.0 v)

-- For distinct ids, and addresses without a comma of which the last is not empty, `ParseIP` on the
-- addresses with commas between them: where there is an id for each, the first ids get the addresses in
-- their order and no other entry of the table changes, those of the ids without an address included; where
-- there is no id, or an address too many, the program ends.
pub parse_ip_lem :
    (ids : List NodeId) (addrs : List (List ℕ)) (t : Map NodeId (List ℕ))
    → AreDistinct ids
    → AreFields b',' addrs
    → (0 < length ids
        → length addrs ≤ length ids
        → (t' : Map NodeId (List ℕ)) × (parse_ip ids (join b',' addrs) t ≡ ok t')
          × Assigns addrs ids t t')
      × ((length ids ≡ 0) ⊎ (length ids < length addrs)
          → parse_ip ids (join b',' addrs) t ≡ err exited)
unfolding parse_ip
parse_ip_lem [] addrs t u a = (λ l. absurd (omega arith), λ h. refl)
parse_ip_lem (id ∷ ids) addrs t u a = rw (fields-join b',' addrs a) (
  λ l h. parse_addresses-Assigns addrs (id ∷ ids) t u h,
  λ h. elim h [
    | inl none_given ↦ absurd (omega arith)
    | inr many ↦ parse_addresses-too_many addrs (id ∷ ids) t many
  ],
)
