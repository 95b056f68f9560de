-- ===== src/Config/Ids.antt =====
-- What holds of the ids and addresses that the options give.
use wspace_controller.Prelude.{
  ℕ, ◌≡◌, refl, sym, subst, true, false, ◌||◌, List, [], ◌∷◌, ◌++◌, some, arith, inl, inr, take,
  Bool-cases, or-true,
}
use mathlib.Core.Option.{some-injective}
use wspace_controller.Prelude.Int.{pos}
use wspace_controller.Prelude.Result.{ok, ok-injective, >>=-eq-ok}
use wspace_controller.Map.{Map, find, put, has, has_elem, ◌=?◌, =?-refl}
use wspace_controller.Map.Laws.{find-put, has-put}
use wspace_controller.NodeId.{NodeId, node_id_eq}
use wspace_controller.Scheduler.Active.Laws.{has_elem-append}
use wspace_controller.Text.{fields, atoi}
use wspace_controller.Config.{Config, parse_bs_ids, parse_client_ids, parse_addresses, parse_ip}

-- The keys of the table are among the ids.
abbrev pub AreKeysIn : {V : Type 0} → List NodeId → Map NodeId V → Type 0
AreKeysIn ids t = (k : NodeId) → has k t ≡ true → has_elem k ids ≡ true

-- No station and no client has the controller's id 1; an address belongs to a given id; each client,
-- and nobody else, has a sequence number, which is 0.
pub record AreIdsValid (c : Config) : Type 0 where
  pub no_controller_bs : has_elem (pos 1) c.bs_ids ≡ false
  pub no_controller_client : has_elem (pos 1) c.client_ids ≡ false
  pub bs_addresses : AreKeysIn c.bs_ids c.bs_ip_tbl
  pub client_addresses : AreKeysIn c.client_ids c.client_ip_tbl
  pub counted : AreKeysIn c.client_ids c.client_original_seq_tbl
  pub from_zero : (k : NodeId) (n : ℕ) → find k c.client_original_seq_tbl ≡ some n → n ≡ 0

has_elem-snoc :
    (k x : NodeId) (xs : List NodeId) → has_elem k (xs ++ x ∷ []) ≡ (has_elem k xs || (x =? k))
has_elem-snoc k x xs = ground (arith, has_elem-append k xs (x ∷ []))

AreKeysIn-snoc :
    {V : Type 0} (id : NodeId) (ids : List NodeId) (t : Map NodeId V)
    → AreKeysIn ids t
    → AreKeysIn (ids ++ id ∷ []) t
AreKeysIn-snoc id ids t a k h = rw (has_elem-snoc k id ids, a k h) refl

AreKeysIn-put :
    {V : Type 0} (id : NodeId) (v : V) (ids : List NodeId) (t : Map NodeId V)
    → has_elem id ids ≡ true
    → AreKeysIn ids t
    → AreKeysIn ids (put id v t)
AreKeysIn-put id v ids t e a k h = elim (Bool-cases (id =? k)) [
  | inl y ↦ subst (λ j. has_elem j ids ≡ true) ((node_id_eq.test_iff id k).0 y) e
  | inr n ↦ a k (let h' = rw (has-put k id v t) at h in rw n at h')
]

has_elem-snoc_self : (id : NodeId) (ids : List NodeId) → has_elem id (ids ++ id ∷ []) ≡ true
has_elem-snoc_self id ids = rw (has_elem-snoc id id ids, =?-refl id) (or-true (has_elem id ids))

add_bs-AreIdsValid :
    (id : NodeId) (c : Config)
    → (id =? pos 1) ≡ false
    → AreIdsValid c
    → AreIdsValid (record c { bs_ids = c.bs_ids ++ id ∷ [] })
add_bs-AreIdsValid id c n v = record {
  no_controller_bs = rw (has_elem-snoc (pos 1) id c.bs_ids, v.no_controller_bs, n) refl;
  no_controller_client = v.no_controller_client;
  bs_addresses = AreKeysIn-snoc id c.bs_ids c.bs_ip_tbl v.bs_addresses;
  client_addresses = v.client_addresses;
  counted = v.counted;
  from_zero = v.from_zero;
}

add_client-AreIdsValid :
    (id : NodeId) (c : Config)
    → (id =? pos 1) ≡ false
    → AreIdsValid c
    → AreIdsValid (record c {
      client_ids = c.client_ids ++ id ∷ [];
      client_original_seq_tbl = put id 0 c.client_original_seq_tbl;
    })
add_client-AreIdsValid id c n v = record {
  no_controller_bs = v.no_controller_bs;
  no_controller_client = rw (has_elem-snoc (pos 1) id c.client_ids, v.no_controller_client, n) refl;
  bs_addresses = v.bs_addresses;
  client_addresses = AreKeysIn-snoc id c.client_ids c.client_ip_tbl v.client_addresses;
  counted =
      AreKeysIn-put id 0 (c.client_ids ++ id ∷ []) c.client_original_seq_tbl
        (has_elem-snoc_self id c.client_ids)
        (AreKeysIn-snoc id c.client_ids c.client_original_seq_tbl v.counted);
  from_zero = λ k m f. elim (Bool-cases (id =? k)) [
    | inl y ↦ sym (some-injective _ _ (rw (find-put k id 0 c.client_original_seq_tbl, y) at f))
    | inr e ↦ v.from_zero k m (rw (find-put k id 0 c.client_original_seq_tbl, e) at f)
  ];
}

pub parse_bs_ids-AreIdsValid :
    (fs : List (List ℕ)) (c c' : Config)
    → AreIdsValid c
    → parse_bs_ids fs c ≡ ok c'
    → AreIdsValid c'
unfolding parse_bs_ids
parse_bs_ids-AreIdsValid [] c c' v run = subst AreIdsValid (ok-injective _ _ run) v
parse_bs_ids-AreIdsValid (f ∷ fs) c c' v run =
    let (id, _, rest) = >>=-eq-ok (atoi f) _ run in
    elim (Bool-cases (id =? pos 1)) [
      | inl y ↦ cc (rw y at rest)
      | inr n ↦ parse_bs_ids-AreIdsValid fs _ c' (add_bs-AreIdsValid id c n v) (rw n at rest)
    ]

pub parse_client_ids-AreIdsValid :
    (fs : List (List ℕ)) (c c' : Config)
    → AreIdsValid c
    → parse_client_ids fs c ≡ ok c'
    → AreIdsValid c'
unfolding parse_client_ids
parse_client_ids-AreIdsValid [] c c' v run = subst AreIdsValid (ok-injective _ _ run) v
parse_client_ids-AreIdsValid (f ∷ fs) c c' v run =
    let (id, _, rest) = >>=-eq-ok (atoi f) _ run in
    elim (Bool-cases (id =? pos 1)) [
      | inl y ↦ cc (rw y at rest)
      | inr n ↦
          parse_client_ids-AreIdsValid fs _ c' (add_client-AreIdsValid id c n v) (rw n at rest)
    ]

parse_addresses-AreKeysIn :
    (addrs : List (List ℕ)) (ids all : List NodeId) (t t' : Map NodeId (List ℕ))
    → ((k : NodeId) → has_elem k ids ≡ true → has_elem k all ≡ true)
    → AreKeysIn all t
    → parse_addresses addrs ids t ≡ ok t'
    → AreKeysIn all t'
unfolding parse_addresses
parse_addresses-AreKeysIn [] ids all t t' sub a run = subst (AreKeysIn all) (ok-injective _ _ run) a
parse_addresses-AreKeysIn (addr ∷ addrs) [] all t t' sub a run = cc
parse_addresses-AreKeysIn (addr ∷ addrs) (id ∷ ids) all t t' sub a run =
    parse_addresses-AreKeysIn addrs ids all (put id (take 16 addr) t) t'
      (λ k h. sub k (rw h (or-true (id =? k))))
      (AreKeysIn-put id (take 16 addr) all t (sub id (rw (=?-refl id) refl)) a) run

pub parse_ip-AreKeysIn :
    (ids : List NodeId) (arg : List ℕ) (t t' : Map NodeId (List ℕ))
    → AreKeysIn ids t
    → parse_ip ids arg t ≡ ok t'
    → AreKeysIn ids t'
unfolding parse_ip
parse_ip-AreKeysIn [] arg t t' a run = cc
parse_ip-AreKeysIn (id ∷ ids) arg t t' a run =
    parse_addresses-AreKeysIn (fields b',' arg) (id ∷ ids) (id ∷ ids) t t' (λ k h. h) a run
