-- ===== src/Routing/Stations.antt =====
-- `RoutingTable::Init` of wspace_controller.cc: what the table says of the stations when it is made.
use wspace_controller.Prelude.{
  ℕ, ◌<◌, ◌≤◌, ◌≡◌, refl, sym, ap, subst, ◌∙◌, true, false, List, [], ◌∷◌, ◌++◌, some, arith,
  length, leb, take, Bool-cases, inl, inr, or-false, or-true,
}
use mathlib.Core.Option.{some-injective}
use wspace_controller.Prelude.Int.{ℤ}
use wspace_controller.Prelude.Result.{ok, err, undefined, ◌>>=◌}
use wspace_controller.Map.{Map, find, has, put, ◌=?◌, =?-refl}
use wspace_controller.Map.Laws.{HasUniqueKeys, find-put, find-put_self}
use wspace_controller.NodeId.{NodeId, node_id_eq}
use wspace_controller.Routing.{BsInfo, RoutingTable}
use wspace_controller.Routing.Update.{add_stations, init, port_eth, tun_prefix}

-- What the table says of a station with an address: that address, cut to 16 bytes, its address in the
-- tunnel, the port and the socket.
abbrev station_info : (ℤ → List ℕ) → ℤ → NodeId → List ℕ → BsInfo
station_info to_string sock b ip = record {
  ip_eth = take 16 ip;
  ip_tun = take 16 (tun_prefix ++ to_string b);
  port = port_eth;
  socket_id = sock;
}

-- Each station with an address has its entry and a route to itself, and all others have what they had.
pub record AddsStations {W : Type 0} (to_string : ℤ → List ℕ) (sock : ℤ) (ips : Map NodeId (List ℕ))
    (t t' : RoutingTable W) : Type 0 where
  pub given :
      (b : NodeId) (ip : List ℕ)
      → find b ips ≡ some ip
      → (find b t'.bs_tbl ≡ some (station_info to_string sock b ip)) × (find b t'.route ≡ some b)
  pub kept :
      (b : NodeId)
      → has b ips ≡ false
      → (find b t'.bs_tbl ≡ find b t.bs_tbl) × (find b t'.route ≡ find b t.route)

fits : (n : ℕ) → n ≤ 15 → leb n 15 ≡ true
fits n h = ground arith

fits_not : (n : ℕ) → 15 < n → leb n 15 ≡ false
fits_not n h = ground arith

module _ {W : Type 0} (to_string : ℤ → List ℕ) (sock : ℤ) where
  AddsStations-cons :
      (x : NodeId) (ip : List ℕ) (ips : Map NodeId (List ℕ)) (t t' : RoutingTable W)
      → has x ips ≡ false
      → AddsStations to_string sock ips
          (record t {
            bs_tbl = put x (station_info to_string sock x ip) t.bs_tbl;
            route = put x x t.route;
          })
          t'
      → AddsStations to_string sock ((x, ip) ∷ ips) t t'
  unfolding find has
  AddsStations-cons x ip ips t t' fresh v = record { given = given'; kept = kept' }
    where
      info : List ℕ → BsInfo
      info = station_info to_string sock x

      given' :
          (b : NodeId) (a : List ℕ)
          → find b ((x, ip) ∷ ips) ≡ some a
          → (find b t'.bs_tbl ≡ some (station_info to_string sock b a)) × (find b t'.route ≡ some b)
      given' b a f = elim (Bool-cases (x =? b)) [
        | inr n ↦ v.given b a (rw n at f)
        | inl y ↦
            let same : ip ≡ a = some-injective _ _ (rw y at f) in
            subst
              (λ k.
                (find k t'.bs_tbl ≡ some (station_info to_string sock k a))
                × (find k t'.route ≡ some k))
              ((node_id_eq.test_iff x b).0 y)
              (
                (v.kept x fresh).0
                    ∙ find-put_self x (station_info to_string sock x ip) t.bs_tbl
                    ∙ ap (λ i. some (station_info to_string sock x i)) same,
                (v.kept x fresh).1 ∙ find-put_self x x t.route,
              )
      ]

      kept' :
          (b : NodeId)
          → has b ((x, ip) ∷ ips) ≡ false
          → (find b t'.bs_tbl ≡ find b t.bs_tbl) × (find b t'.route ≡ find b t.route)
      kept' b h =
          let (n, out) = or-false (x =? b) (has b ips) h in
          (
            (v.kept b out).0
                ∙ rw (find-put b x (station_info to_string sock x ip) t.bs_tbl, n) refl,
            (v.kept b out).1 ∙ rw (find-put b x x t.route, n) refl,
          )

  add_stations-AddsStations :
      (ips : Map NodeId (List ℕ)) (t : RoutingTable W)
      → HasUniqueKeys ips
      → ((b : NodeId) → has b ips ≡ true → length (tun_prefix ++ to_string b) ≤ 15)
      → (t' : RoutingTable W) × (add_stations to_string sock ips t ≡ ok t')
        × AddsStations to_string sock ips t t'
  unfolding add_stations has find
  add_stations-AddsStations [] t u room =
      (t, refl, record { given = λ b ip f. cc; kept = λ b h. (refl, refl) })
  add_stations-AddsStations ((x, ip) ∷ ips) t u room =
      let (t', run, v) =
        add_stations-AddsStations ips
          (record t {
            bs_tbl = put x (station_info to_string sock x ip) t.bs_tbl;
            route = put x x t.route;
          })
          u.1 (λ b h. room b (rw h (or-true (x =? b)))) in
      (t', rw (fits _ (room x (rw (=?-refl x) refl))) run, AddsStations-cons x ip ips t t' u.0 v)

  add_stations-too_long :
      (ips : Map NodeId (List ℕ)) (t : RoutingTable W) (b : NodeId)
      → has b ips ≡ true
      → 15 < length (tun_prefix ++ to_string b)
      → add_stations to_string sock ips t ≡ err undefined
  unfolding add_stations has
  add_stations-too_long [] t b h long = cc
  add_stations-too_long ((x, ip) ∷ ips) t b h long =
      elim (Bool-cases (leb (length (tun_prefix ++ to_string x)) 15)) [
        | inr n ↦ rw n refl
        | inl y ↦ elim (Bool-cases (x =? b)) [
          | inl same ↦
              let at_x : leb (length (tun_prefix ++ to_string x)) 15 ≡ false =
                subst (λ k. leb (length (tun_prefix ++ to_string k)) 15 ≡ false)
                  (sym ((node_id_eq.test_iff x b).0 same)) (fits_not _ long) in
              rw at_x refl
          | inr other ↦ rw y (add_stations-too_long ips _ b (rw other at h) long)
        ]
      ]

  -- For a table of addresses with one entry a station: where each id takes at most 8 characters, so that
  -- it fits behind "10.0.0.", `Init` returns. Each station with an address has an entry with that
  -- address, its address in the tunnel, the port and the socket, and a route to itself; what the table says
  -- of all others stays, and the lists of stations and clients are those given. One longer id makes the
  -- call undefined.
  pub init_lem :
      (ips : Map NodeId (List ℕ)) (bs clients : List NodeId) (t : RoutingTable W)
      → HasUniqueKeys ips
      → (((b : NodeId) → has b ips ≡ true → length (tun_prefix ++ to_string b) ≤ 15)
          → (t' : RoutingTable W) × (init to_string sock ips bs clients t ≡ ok t')
            × AddsStations to_string sock ips t t'
            × (t'.bs_ids ≡ bs)
            × (t'.client_ids ≡ clients))
        × ((b : NodeId)
            → has b ips ≡ true
            → 15 < length (tun_prefix ++ to_string b)
            → init to_string sock ips bs clients t ≡ err undefined)
  unfolding init
  init_lem ips bs clients t u = (
    λ room.
        let (t', run, v) = add_stations-AddsStations ips t u room in
        (
          record t' { bs_ids = bs; client_ids = clients },
          ap
              (λ r.
                r >>= λ (x : RoutingTable W). ok (record x { bs_ids = bs; client_ids = clients }))
              run,
          record { given = v.given; kept = v.kept },
          refl,
          refl,
        ),
    λ b h long.
        ap (λ r. r >>= λ (x : RoutingTable W). ok (record x { bs_ids = bs; client_ids = clients }))
          (add_stations-too_long ips t b h long),
  )
