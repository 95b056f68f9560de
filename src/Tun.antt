-- ===== src/Tun.antt =====
-- `Tun` of tun.h and tun.cc: reads and writes on the tunnel and on the socket. What a system call
-- returns is a parameter: the number of bytes, or -1 for an error.
use wspace_controller.Prelude.{
  ℕ, ◌-◌, ◌%◌, ◌^◌, ◌<◌, ◌≤◌, ◌≡◌, ◌≢◌, refl, ap, ◌↔◌, Bool, true, false, inl, inr, List, [], ◌∷◌,
  Bool-cases, ◌&&◌, leb, ◌==◌, ==_iff, arith, if◌then◌else◌,
}
use wspace_controller.Prelude.Int.{ℤ, pos, negsuc}
use wspace_controller.Prelude.Result.{Result, ok, err, assert_failed}
use wspace_controller.Map.{Map, has}
use wspace_controller.NodeId.{NodeId, node_id_eq}

-- `sockaddr_in`, of the internet's family: the address and the port as they stand in memory.
pub record SockAddr : Type 0 where
  pub s_addr : ℕ
  pub port : ℕ

-- `!strcmp (a, b)`.
unfoldable is_same_text : List ℕ → List ℕ → Bool
is_same_text [] [] = true
is_same_text (x ∷ xs) (y ∷ ys) = (x == y) && is_same_text xs ys
is_same_text _ _ = false

-- `CreateAddr`; `inet_addr` and `htons` are the system's, and INADDR_ANY is 0 in any order of bytes.
unfoldable create_addr : (List ℕ → ℕ) → (ℕ → ℕ) → List ℕ → List ℕ → ℕ → SockAddr
unfolding is_same_text
create_addr inet_addr htons controller_ip_eth ip port = record {
  s_addr = if is_same_text ip controller_ip_eth then 0 else inet_addr ip;
  port = htons (port % 2 ^ 16);
}

-- `IOType`.
pub data IoType : Type 0 where
  tun : IoType
  wspace : IoType
  cellular : IoType
  control : IoType

-- An `int` or `ssize_t` in a `uint16_t`.
abbrev to_u16 : ℤ → ℕ
to_u16 (pos n) = n % 2 ^ 16
to_u16 (negsuc n) = 2 ^ 16 - 1 - n % 2 ^ 16

-- The value of the call for the type, and -1 for the types that have none.
abbrev outcome : IoType → ℤ → ℤ → ℤ
outcome tun on_tun on_socket = on_tun
outcome control on_tun on_socket = on_socket
outcome _ on_tun on_socket = negsuc 0

-- `Read`, with what `read` on the tunnel and `recvfrom` on the socket return.
unfoldable pub read : IoType → ℤ → ℤ → Result ℕ
read type on_tun on_socket =
    let nread = to_u16 (outcome type on_tun on_socket) in
    if leb 1 nread then ok nread else err assert_failed

-- `Write` of `len` bytes, with what `write` and `sendto` return.
unfoldable pub write : IoType → ℕ → ℤ → ℤ → Result ℕ
write type len on_tun on_socket =
    let nwrite = to_u16 (outcome type on_tun on_socket) in
    if leb 1 len && (nwrite == len) then ok nwrite else err assert_failed

-- `IsValidClient`.
unfoldable pub is_valid_client : NodeId → Map NodeId (List ℕ) → Bool
is_valid_client client_id client_ip_tbl = has client_id client_ip_tbl

-- A system call on `len` bytes: an error, or at most `len` bytes.
abbrev pub IsOutcome : ℕ → ℤ → Type 0
IsOutcome len (pos n) = n ≤ len
IsOutcome len (negsuc n) = n ≡ 0

whole_iff :
    (len : ℕ) (r : ℤ) → len < 65535 → IsOutcome len r → ((to_u16 r == len) ≡ true) ↔ (r ≡ pos len)
whole_iff len (pos n) small o = (λ h. ap pos (ground arith), λ e. ground arith)
whole_iff len (negsuc n) small o = (λ h. absurd (ground arith), λ e. cc)

lt→leb : (len : ℕ) → 0 < len → leb 1 len ≡ true
lt→leb len h = ground arith

-- A packet of at least one byte, and of fewer than 65535: `Write` returns just where the system call has
-- taken all its bytes, and gives their number; an error or a part of them ends the program.
pub write_lem :
    (type : IoType) (len : ℕ) (on_tun on_socket : ℤ)
    → 0 < len
    → len < 65535
    → IsOutcome len (outcome type on_tun on_socket)
    → (outcome type on_tun on_socket ≡ pos len → write type len on_tun on_socket ≡ ok len)
      × (outcome type on_tun on_socket ≢ pos len
          → write type len on_tun on_socket ≡ err assert_failed)
unfolding write
write_lem type len on_tun on_socket some small o =
    let r = outcome type on_tun on_socket in
    let (to, from) = whole_iff len r small o in
    (
      λ e. let all = from e in rw (all, lt→leb len some) (ap ok ((==_iff (to_u16 r) len).0 all)),
      λ h. elim (Bool-cases (to_u16 r == len)) [
        | inl y ↦ absurd (h (to y))
        | inr n ↦ rw (n, lt→leb len some) refl
      ],
    )
