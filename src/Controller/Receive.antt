-- ===== src/Controller/Receive.antt =====
-- `RecvFromBS` of wspace_controller.cc on any packet from the stations. The size of `CellDataHeader` is a
-- parameter, and so are the ids that stand in the headers of the other packets.
use wspace_controller.Prelude.{
  ℕ, ◌<◌, ◌≡◌, true, List, [], ◌∷◌, some, ltb, ◌==◌, if◌then◌else◌, length, drop,
}
use wspace_controller.Prelude.Result.{Result, ok, err, ◌>>=◌, ◌>>◌, assert_failed, undefined}
use wspace_controller.Map.{Map, find, put, has, get_or}
use wspace_controller.NodeId.{NodeId, node_id_eq}
use wspace_controller.Double.{Double}
use wspace_controller.Controller.{WspaceController, BsStatsPkt, recv_stats}
use wspace_controller.Controller.Writing.{Sent, to_tunnel, to_address, System, write_all}
use wspace_controller.Routing.Update.{port_eth}

-- A packet by its first byte, with what the handler reads in it and all its bytes.
pub data Received (W : Type 0) : Type 0 where
  stats : BsStatsPkt W → Received W
  cell_data : List ℕ → Received W
  ack : NodeId → List ℕ → Received W
  gps : List ℕ → Received W
  code : NodeId → List ℕ → Received W
  other : Received W

-- `bs_ip_tbl_[id]`, which enters an empty address for an id that is missing.
unfoldable pub address_of : NodeId → Map NodeId (List ℕ) → List ℕ × Map NodeId (List ℕ)
address_of id t = let ip = get_or [] id t in (ip, put id ip t)

module _ {W : Type 0} where
  -- The data of a cellular packet, of `n` bytes of header: `Write` asserts that there are some, and with
  -- fewer bytes than the header the length wraps around.
  unfoldable pub pass_on : ℕ → List ℕ → WspaceController W → Result (List Sent × WspaceController W)
  pass_on n bytes c =
      if ltb n (length bytes)
      then ok (to_tunnel (drop n bytes) ∷ [], c)
      else if length bytes == n
      then err assert_failed
      else err undefined

  -- The default station is the first of the table.
  unfoldable pub to_default : List ℕ → WspaceController W → Result (List Sent × WspaceController W)
  to_default bytes c = elim c.bs_ip_tbl [
    | [] ↦ err undefined
    | p ∷ ps ↦ ok (to_address p.1 port_eth bytes ∷ [], c)
  ]

module _ {W : Type 0} ⦃d : Double W⦄ where
  -- What the handler writes for a packet, and the tables when it does.
  unfoldable pub answer :
      ℕ → Received W → WspaceController W → Result (List Sent × WspaceController W)
  unfolding address_of pass_on to_default
  answer n (stats p) c = ok ([], recv_stats p c)
  answer n (cell_data bytes) c = pass_on n bytes c
  answer n (ack bs_id bytes) c =
      let (ip, t) = address_of bs_id c.bs_ip_tbl in
      ok (to_address ip port_eth bytes ∷ [], record c { bs_ip_tbl = t })
  answer n (gps bytes) c = to_default bytes c
  answer n (code client_id bytes) c =
      let (ip, t) = address_of client_id c.client_ip_tbl in
      ok (to_address ip port_eth bytes ∷ [], record c { client_ip_tbl = t })
  answer n other c = ok ([], c)

  -- One turn of `RecvFromBS`, which ends with its calls of `Write`.
  unfoldable pub recv_from_bs :
      System → ℕ → Received W → WspaceController W → Result (List Sent × WspaceController W)
  unfolding answer write_all
  recv_from_bs sys n r c = answer n r c >>= λ p. write_all sys p.0 >> ok p

  -- A packet that is longer than its header, or names a station or a client that has an address.
  abbrev pub IsExpected : ℕ → Received W → WspaceController W → Type 0
  IsExpected n (cell_data bytes) c = n < length bytes
  IsExpected n (ack bs_id bytes) c = has bs_id c.bs_ip_tbl ≡ true
  IsExpected n (gps bytes) c = (b : NodeId) × (has b c.bs_ip_tbl ≡ true)
  IsExpected n (code client_id bytes) c = has client_id c.client_ip_tbl ≡ true
  IsExpected n _ c = Unit

  -- Where the bytes of a packet go.
  abbrev pub IsDelivered : ℕ → Received W → WspaceController W → List Sent → Type 0
  IsDelivered n (cell_data bytes) c sent = sent ≡ to_tunnel (drop n bytes) ∷ []
  IsDelivered n (ack bs_id bytes) c sent =
      (ip : List ℕ) × (find bs_id c.bs_ip_tbl ≡ some ip)
      × (sent ≡ to_address ip port_eth bytes ∷ [])
  IsDelivered n (gps bytes) c sent =
      (p : NodeId × List ℕ) × (rest : Map NodeId (List ℕ)) × (c.bs_ip_tbl ≡ p ∷ rest)
      × (sent ≡ to_address p.1 port_eth bytes ∷ [])
  IsDelivered n (code client_id bytes) c sent =
      (ip : List ℕ) × (find client_id c.client_ip_tbl ≡ some ip)
      × (sent ≡ to_address ip port_eth bytes ∷ [])
  IsDelivered n _ c sent = sent ≡ []
