-- ===== src/Controller/Writing.antt =====
-- What the controller writes in a turn, and `Write` of tun.cc on all of it. What the system calls return is
-- a parameter.
use wspace_controller.Prelude.{
  ℕ, ◌≡◌, refl, true, false, List, [], ◌∷◌, ◌⊎◌, inl, inr, length, ap, if◌then◌else◌, Bool, ◌&&◌,
  leb, ◌==◌,
}
use wspace_controller.Prelude.Int.{ℤ, pos}
use wspace_controller.Prelude.Result.{Result, ok, err, ◌>>=◌, ◌>>◌, assert_failed}
use wspace_controller.Tun

-- Bytes that are written to the tunnel, or to an address and its port.
pub data Sent : Type 0 where
  to_tunnel : List ℕ → Sent
  to_address : List ℕ → ℕ → List ℕ → Sent

-- What `write` on the tunnel returns for some bytes, and `sendto` for the address that `CreateAddr` makes
-- of a text and a port, and some bytes.
pub record System : Type 0 where
  pub on_tunnel : List ℕ → ℤ
  pub on_socket : List ℕ → ℕ → List ℕ → ℤ

-- The call of `Write`.
unfoldable pub write_one : System → Sent → Result ℕ
write_one sys (to_tunnel bytes) = Tun.write Tun.tun (length bytes) (sys.on_tunnel bytes) (pos 0)
write_one sys (to_address ip port bytes) =
    Tun.write Tun.control (length bytes) (pos 0) (sys.on_socket ip port bytes)

unfoldable pub write_all : System → List Sent → Result (Unit {0})
write_all sys [] = ok tt
write_all sys (x ∷ xs) = write_one sys x >>= λ n. write_all sys xs

abbrev pub IsIn : Sent → List Sent → Type 0
IsIn s [] = ⊥
IsIn s (x ∷ xs) = (x ≡ s) ⊎ IsIn s xs

-- One of the writes fails at the assertion that all bytes are taken.
abbrev pub NotTaken : System → List Sent → Type 0
NotTaken sys sent = (s : Sent) × IsIn s sent × (write_one sys s ≡ err assert_failed)

-- A turn that makes these writes, and otherwise ends with a value: it ends so where all the writes are
-- taken, and else at the assertion of `Write`.
abbrev pub WriteSpec : {A : Type 0} → System → List Sent → A → Result A → Type 0
WriteSpec sys sent a r =
    ((write_all sys sent ≡ ok tt) × (r ≡ ok a)) ⊎ (NotTaken sys sent × (r ≡ err assert_failed))

write_cases :
    (type : Tun.IoType) (len : ℕ) (on_tun on_socket : ℤ)
    → ((n : ℕ) × (Tun.write type len on_tun on_socket ≡ ok n))
      ⊎ (Tun.write type len on_tun on_socket ≡ err assert_failed)
unfolding Tun.write
write_cases type len on_tun on_socket = by_test _ (leb 1 len && (_ == len))
  where
    by_test :
        (n : ℕ) (b : Bool)
        → ((m : ℕ) × ((if b then ok n else err assert_failed) ≡ ok m))
          ⊎ ((if b then ok n else err assert_failed) ≡ err assert_failed)
    by_test n true = inl (n, refl)
    by_test n false = inr refl

write_one_cases :
    (sys : System) (s : Sent)
    → ((n : ℕ) × (write_one sys s ≡ ok n)) ⊎ (write_one sys s ≡ err assert_failed)
unfolding write_one
write_one_cases sys (to_tunnel bytes) = write_cases Tun.tun _ _ _
write_one_cases sys (to_address ip port bytes) = write_cases Tun.control _ _ _

write_all_cases :
    (sys : System) (sent : List Sent)
    → (write_all sys sent ≡ ok tt) ⊎ (NotTaken sys sent × (write_all sys sent ≡ err assert_failed))
unfolding write_all
write_all_cases sys [] = inl refl
write_all_cases sys (x ∷ xs) = elim (write_one_cases sys x) [
  | inr fails ↦ inr ((x, inl refl, fails), rw fails refl)
  | inl (n, taken) ↦ elim (write_all_cases sys xs) [
    | inl rest ↦ inl (rw taken rest)
    | inr ((s, there, fails), rest) ↦ inr ((s, inr there, fails), rw taken rest)
  ]
]

pub written :
    {A : Type 0} (sys : System) (sent : List Sent) (a : A)
    → WriteSpec sys sent a (write_all sys sent >> ok a)
written sys sent a = elim (write_all_cases sys sent) [
  | inl taken ↦ inl (taken, ap (λ r. r >> ok a) taken)
  | inr (some_not, fails) ↦ inr (some_not, ap (λ r. r >> ok a) fails)
]
