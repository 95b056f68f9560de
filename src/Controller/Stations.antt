-- ===== src/Controller/Stations.antt =====
-- What `RecvFromBS` does with the packets that it expects, and how a packet that names a stranger ends the
-- program.
use wspace_controller.Prelude.{
  cons_cases, ℕ, ◌≡◌, refl, sym, ap, subst, ◌∙◌, true, false, List, [], ◌∷◌, some, length, drop,
  inl, inr, Bool-cases, lt→ltb, ◌<◌, arith, ==-ne, leb,
}
use wspace_controller.Prelude.Result.{ok, err, ◌>>=◌, ◌>>◌, undefined, assert_failed, ok-injective}
use wspace_controller.Map.{Map, find, put, has, get_or}
use wspace_controller.Map.Laws.{has-put_known, has-find, get_or-find, find-none}
use wspace_controller.NodeId.{NodeId, node_id_eq}
use wspace_controller.Double.{Double}
use wspace_controller.Controller.{WspaceController, BsStatsPkt, recv_stats}
use wspace_controller.Controller.Laws.{is_accepted, accepted, recv_accepted, recv_refused}
use wspace_controller.Controller.Wiring.{IsWired, IsSameSetup, unchanged-IsSameSetup, EndsWired}
use wspace_controller.Controller.Turns.{accepted-IsWired}
use wspace_controller.Controller.Receive.{
  Received, stats, cell_data, ack, gps, code, other, address_of, pass_on, to_default, answer,
  recv_from_bs, IsExpected, IsDelivered,
}
use wspace_controller.Controller.Writing.{
  Sent, to_tunnel, to_address, System, write_one, write_all, WriteSpec, written,
}
use wspace_controller.Routing.Update.{port_eth}
use wspace_controller.Prelude.Int.{negsuc}
use wspace_controller.Tun

-- An id that has an address keeps it, and the table gets no new one.
address_of-known :
    (id : NodeId) (t : Map NodeId (List ℕ))
    → has id t ≡ true
    → (ip : List ℕ) × (find id t ≡ some ip)
      × (address_of id t ≡ (ip, put id ip t))
      × ((k : NodeId) → has k (put id ip t) ≡ has k t)
unfolding address_of
address_of-known id t h =
    let (ip, f) = has-find id t h in
    let read = get_or-find [] id t ip f in (ip, f, rw read refl, λ k. has-put_known k id ip t h)

-- An id that has none gets an empty one.
address_of-new :
    (id : NodeId) (t : Map NodeId (List ℕ)) → has id t ≡ false → address_of id t ≡ ([], put id [] t)
unfolding address_of get_or
address_of-new id t h =
    let none_read : get_or [] id t ≡ [] = rw (get_or, find-none id t h) refl in
    ap (λ ip. (ip, put id ip t)) none_read

-- A write that the socket refuses.
write_empty :
    (sys : System) (bytes : List ℕ)
    → sys.on_socket [] port_eth bytes ≡ negsuc 0
    → length bytes < 65535
    → write_all sys (to_address [] port_eth bytes ∷ []) ≡ err assert_failed
unfolding write_all write_one Tun.write
write_empty sys bytes fails small =
    rw (fails, ==-ne 65535 (length bytes) (λ e. omega (arith, e)))
      (elim (Bool-cases (leb 1 (length bytes))) [ inl y ↦ rw y refl | inr m ↦ rw m refl ])

module _ {W : Type 0} ⦃d : Double W⦄ where
  -- The tables of addresses do not matter, but for the stations that have one.
  same_stations-IsWired :
      (c : WspaceController W) (t u : Map NodeId (List ℕ))
      → IsWired c
      → ((k : NodeId) → has k t ≡ has k c.bs_ip_tbl)
      → IsWired (record c { bs_ip_tbl = t; client_ip_tbl = u })
  same_stations-IsWired c t u w same = record {
    stations = w.stations;
    reports = w.reports;
    rows = w.rows;
    addresses = λ b h. w.addresses b (sym (same b) ∙ h);
    listed = w.listed;
    some_listed = w.some_listed;
    domains = w.domains;
    ready = w.ready;
  }

  recv_stats-IsWired :
      (p : BsStatsPkt W) (c : WspaceController W) → IsWired c → EndsWired c (ok (recv_stats p c))
  recv_stats-IsWired p c w = elim (Bool-cases (is_accepted p c)) [
    | inl y ↦ (
      accepted p c,
      ap ok (recv_accepted p c y),
      accepted-IsWired p c y w,
      unchanged-IsSameSetup c _ refl refl refl (λ k. refl) refl refl,
    )
    | inr n ↦ (
      c,
      ap ok (recv_refused p c n),
      w,
      unchanged-IsSameSetup c _ refl refl refl (λ k. refl) refl refl,
    )
  ]

  pub answer_lem :
      (n : ℕ) (r : Received W) (c : WspaceController W)
      → IsExpected n r c
      → IsWired c
      → (sent : List Sent) × (c' : WspaceController W) × (answer n r c ≡ ok (sent, c'))
        × IsDelivered n r c sent
        × IsWired c'
        × IsSameSetup c c'
  unfolding answer pass_on to_default has
  answer_lem n (stats p) c e w =
      let (c', same, w', setup) = recv_stats-IsWired p c w in
      (
        [],
        recv_stats p c,
        refl,
        refl,
        subst IsWired (sym (ok-injective _ _ same)) w',
        subst (IsSameSetup c) (sym (ok-injective _ _ same)) setup,
      )
  answer_lem n (cell_data bytes) c e w = (
    to_tunnel (drop n bytes) ∷ [],
    c,
    rw (lt→ltb n (length bytes) e) refl,
    refl,
    w,
    unchanged-IsSameSetup c _ refl refl refl (λ k. refl) refl refl,
  )
  answer_lem n (ack b bytes) c e w =
      let (ip, f, run, same) = address_of-known b c.bs_ip_tbl e in
      (
        to_address ip port_eth bytes ∷ [],
        record c { bs_ip_tbl = put b ip c.bs_ip_tbl },
        ap (λ r. ok (to_address r.0 port_eth bytes ∷ [], record c { bs_ip_tbl = r.1 })) run,
        (ip, f, refl),
        same_stations-IsWired c (put b ip c.bs_ip_tbl) c.client_ip_tbl w same,
        record {
          mode = refl;
          stations = same;
          clients = λ k. refl;
          domains = λ k. refl;
          bs_ids = refl;
          client_ids = refl;
        },
      )
  answer_lem n (gps bytes) c e w = elim (cons_cases c.bs_ip_tbl) [
    | inl none_there ↦ cc (ap (has e.0) none_there, e.1)
    | inr (p, ps, f) ↦ (
      to_address p.1 port_eth bytes ∷ [],
      c,
      ap (λ t. elim t [ [] ↦ err undefined | q ∷ qs ↦ ok (to_address q.1 port_eth bytes ∷ [], c) ])
          f,
      (p, ps, f, refl),
      w,
      unchanged-IsSameSetup c _ refl refl refl (λ k. refl) refl refl,
    )
  ]
  answer_lem n (code id bytes) c e w =
      let (ip, f, run, same) = address_of-known id c.client_ip_tbl e in
      (
        to_address ip port_eth bytes ∷ [],
        record c { client_ip_tbl = put id ip c.client_ip_tbl },
        ap (λ r. ok (to_address r.0 port_eth bytes ∷ [], record c { client_ip_tbl = r.1 })) run,
        (ip, f, refl),
        same_stations-IsWired c c.bs_ip_tbl (put id ip c.client_ip_tbl) w (λ k. refl),
        record {
          mode = refl;
          stations = λ k. refl;
          clients = same;
          domains = λ k. refl;
          bs_ids = refl;
          client_ids = refl;
        },
      )
  answer_lem n other c e w =
      ([], c, refl, refl, w, unchanged-IsSameSetup c _ refl refl refl (λ k. refl) refl refl)

  pub recv_from_bs-WriteSpec :
      (sys : System) (n : ℕ) (r : Received W) (c c' : WspaceController W) (sent : List Sent)
      → answer n r c ≡ ok (sent, c')
      → WriteSpec sys sent (sent, c') (recv_from_bs sys n r c)
  unfolding recv_from_bs
  recv_from_bs-WriteSpec sys n r c c' sent run = rw run (written sys sent (sent, c'))

  -- A packet that the handler expects, of data longer than its header, or to a station or a client that
  -- has an address, or a position where some station has one, is taken without a fault as far as the
  -- calls of `Write`, and that fails only at its assertion that the system takes all bytes. Statistics go
  -- nowhere, data go to the tunnel without their header, an ack goes to its station, a position to the
  -- first station, and a coded packet to its client, all bytes as they came. Tables that were in order
  -- are so after it, and the same stations and clients have an address.
  pub recv_from_bs_lem :
      (sys : System) (n : ℕ) (r : Received W) (c : WspaceController W)
      → IsExpected n r c
      → IsWired c
      → (sent : List Sent) × (c' : WspaceController W) × WriteSpec sys sent
          (sent, c')
          (recv_from_bs sys n r c)
        × IsDelivered n r c sent
        × IsWired c'
        × IsSameSetup c c'
  recv_from_bs_lem sys n r c e w =
      let (sent, c', run, to, w', same) = answer_lem n r c e w in
      (sent, c', recv_from_bs-WriteSpec sys n r c c' sent run, to, w', same)

  -- A packet that is expected stays so as long as the setup is the same.
  pub IsExpected-later :
      (n : ℕ) (r : Received W) (c c' : WspaceController W)
      → IsSameSetup c c'
      → IsExpected n r c
      → IsExpected n r c'
  IsExpected-later n (stats p) c c' s e = tt
  IsExpected-later n (cell_data bytes) c c' s e = e
  IsExpected-later n (ack b bytes) c c' s e = s.stations b ∙ e
  IsExpected-later n (gps bytes) c c' s e = (e.0, s.stations e.0 ∙ e.1)
  IsExpected-later n (code id bytes) c c' s e = s.clients id ∙ e
  IsExpected-later n other c c' s e = tt

  -- An ack of a station, or a coded packet to a client, that has no address; `sendto` returns an error for
  -- the empty one.
  abbrev pub IsOfStranger : System → Received W → WspaceController W → Type 0
  IsOfStranger sys (ack id bytes) c =
      (has id c.bs_ip_tbl ≡ false)
      × (sys.on_socket [] port_eth bytes ≡ negsuc 0)
      × (length bytes < 65535)
  IsOfStranger sys (code id bytes) c =
      (has id c.client_ip_tbl ≡ false)
      × (sys.on_socket [] port_eth bytes ≡ negsuc 0)
      × (length bytes < 65535)
  IsOfStranger sys _ c = ⊥

  ack-new :
      (n : ℕ) (id : NodeId) (bytes : List ℕ) (c : WspaceController W)
      → has id c.bs_ip_tbl ≡ false
      → answer n (ack id bytes) c
        ≡ ok (to_address [] port_eth bytes ∷ [], record c { bs_ip_tbl = put id [] c.bs_ip_tbl })
  unfolding answer
  ack-new n id bytes c unknown =
      ap (λ r. ok (to_address r.0 port_eth bytes ∷ [], record c { bs_ip_tbl = r.1 }))
        (address_of-new id c.bs_ip_tbl unknown)

  code-new :
      (n : ℕ) (id : NodeId) (bytes : List ℕ) (c : WspaceController W)
      → has id c.client_ip_tbl ≡ false
      → answer n (code id bytes) c
        ≡ ok (
          to_address [] port_eth bytes ∷ [],
          record c { client_ip_tbl = put id [] c.client_ip_tbl },
        )
  unfolding answer
  code-new n id bytes c unknown =
      ap (λ r. ok (to_address r.0 port_eth bytes ∷ [], record c { client_ip_tbl = r.1 }))
        (address_of-new id c.client_ip_tbl unknown)

  recv_from_bs-fails :
      (sys : System) (n : ℕ) (r : Received W) (c c' : WspaceController W) (sent : List Sent)
      → answer n r c ≡ ok (sent, c')
      → write_all sys sent ≡ err assert_failed
      → recv_from_bs sys n r c ≡ err assert_failed
  unfolding recv_from_bs
  recv_from_bs-fails sys n r c c' sent run fails =
      ap (λ x. x >>= λ p. write_all sys p.0 >> ok p) run ∙ ap (λ x. x >> ok (sent, c')) fails

  -- A packet of fewer than 65535 bytes: where `sendto` returns an error for an empty address, an ack of a
  -- station that has no address, or a coded packet to a client that has none, ends the program at
  -- the assertion of `Write`.
  pub stranger_lem :
      (sys : System) (n : ℕ) (r : Received W) (c : WspaceController W)
      → IsOfStranger sys r c
      → recv_from_bs sys n r c ≡ err assert_failed
  stranger_lem sys n (ack id bytes) c (unknown, fails, small) =
      recv_from_bs-fails sys n (ack id bytes) c _ _ (ack-new n id bytes c unknown)
        (write_empty sys bytes fails small)
  stranger_lem sys n (code id bytes) c (unknown, fails, small) =
      recv_from_bs-fails sys n (code id bytes) c _ _ (code-new n id bytes c unknown)
        (write_empty sys bytes fails small)
  stranger_lem sys n (stats p) c h = elim h [ ]
  stranger_lem sys n (cell_data bytes) c h = elim h [ ]
  stranger_lem sys n (gps bytes) c h = elim h [ ]
  stranger_lem sys n other c h = elim h [ ]
