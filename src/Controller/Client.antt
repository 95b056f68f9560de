-- ===== src/Controller/Client.antt =====
-- `ExtractClientID` of wspace_controller.cc: the id of a client is the last byte of its address in the
-- tunnel. `inet_ntoa` is the system's and `sizeof (long)` the compiler's, so they are parameters.
use wspace_controller.Prelude.{
  ℕ, zero, suc, ◌<◌, ◌≤◌, ◌≡◌, ◌≢◌, refl, ap, ◌∙◌, List, [], ◌∷◌, ◌++◌, true, arith, leb, ◌==◌,
  ==-ne, length, take, drop, length-append,
}
use wspace_controller.Prelude.Int.{ℤ, pos}
use wspace_controller.Prelude.Result.{Result, err, ok, ◌>>=◌, ◌>>◌, guard, undefined}
use wspace_controller.Text.{atoi, after_last_char}
use wspace_controller.Text.Decimal.{dotted, atoi-decimal, take-dotted, after_last_char-dotted}

-- It copies `sizeof (long)` bytes from the destination at byte 16 to an address of 4 bytes: more would
-- be written past it, and fewer would leave a part of it unset.
unfoldable pub extract_client_id : (List ℕ → List ℕ) → ℕ → List ℕ → Result ℤ
extract_client_id inet_ntoa long_size pkt =
    guard (long_size == 4) undefined
    >> guard (leb 20 (length pkt)) undefined
    >> (after_last_char b'.' (take 16 (inet_ntoa (take 4 (drop 16 pkt)))) >>= atoi)

-- What its documentation says of `inet_ntoa`, for the bytes of an address in the order of the network.
abbrev pub IsInetNtoa : (List ℕ → List ℕ) → Type 0
IsInetNtoa inet_ntoa =
    (a b c d : ℕ)
    → a < 256
    → b < 256
    → c < 256
    → d < 256
    → inet_ntoa (a ∷ b ∷ c ∷ d ∷ []) ≡ dotted a b c d

drop-append : (n : ℕ) (xs ys : List ℕ) → length xs ≡ n → drop n (xs ++ ys) ≡ ys
drop-append zero [] ys e = refl
drop-append zero (x ∷ xs) ys e = absurd (omega (arith, e))
drop-append (suc n) [] ys e = absurd (omega (arith, e))
drop-append (suc n) (x ∷ xs) ys e = drop-append n xs ys (omega (arith, e))

leb-true : (n : ℕ) → 20 ≤ n → leb 20 n ≡ true
leb-true n h = ground arith

-- A packet with 16 bytes of header before the destination, the address a.b.c.d: where a `long`
-- has 4 bytes, the client's id is d, whatever follows in the packet; where it has another size, the
-- copy of the address is undefined.
pub extract_client_id_lem :
    (inet_ntoa : List ℕ → List ℕ) (long_size : ℕ) (head rest : List ℕ) (a b c d : ℕ)
    → IsInetNtoa inet_ntoa
    → length head ≡ 16
    → a < 256
    → b < 256
    → c < 256
    → d < 256
    → (long_size ≡ 4
        → extract_client_id inet_ntoa long_size (head ++ (a ∷ b ∷ c ∷ d ∷ rest)) ≡ ok (pos d))
      × (long_size ≢ 4
          → extract_client_id inet_ntoa long_size (head ++ (a ∷ b ∷ c ∷ d ∷ rest)) ≡ err undefined)
unfolding extract_client_id
extract_client_id_lem inet_ntoa long_size head rest a b c d text h ha hb hc hd =
    let pkt = a ∷ b ∷ c ∷ d ∷ rest in
    let long : leb 20 (length (head ++ pkt)) ≡ true =
      leb-true _ (omega (arith, length-append head pkt, h)) in
    (
      λ e.
          rw
            (
              e,
              long,
              drop-append 16 head pkt h,
              text a b c d ha hb hc hd,
              take-dotted a b c d,
              after_last_char-dotted a b c d hd,
            )
            (atoi-decimal d hd),
      λ e. rw (==-ne long_size 4 e) refl,
    )

-- A packet of the tunnel, with a destination after 16 bytes of its header.
pub record IsIpPacket (bytes : List ℕ) : Type 0 where
  pub head : List ℕ
  pub rest : List ℕ
  pub a : ℕ
  pub b : ℕ
  pub c : ℕ
  pub d : ℕ
  pub parts : bytes ≡ head ++ (a ∷ b ∷ c ∷ d ∷ rest)
  pub long : length head ≡ 16
  pub a_byte : a < 256
  pub b_byte : b < 256
  pub c_byte : c < 256
  pub d_byte : d < 256

pub extract_client_id-IsIpPacket :
    (inet_ntoa : List ℕ → List ℕ) (long_size : ℕ) (bytes : List ℕ)
    → IsInetNtoa inet_ntoa
    → long_size ≡ 4
    → IsIpPacket bytes
    → (id : ℤ) × (extract_client_id inet_ntoa long_size bytes ≡ ok id)
extract_client_id-IsIpPacket inet_ntoa long_size bytes text four p = (
  pos p.d,
  ap (extract_client_id inet_ntoa long_size) p.parts
      ∙ (extract_client_id_lem inet_ntoa long_size p.head p.rest p.a p.b p.c p.d text p.long
            p.a_byte p.b_byte p.c_byte p.d_byte).0
          four,
)
