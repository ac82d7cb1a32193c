-- ===== src/CString/Length.antt =====
-- `strlen` finds the terminating zero.
use judd_os.Prelude.{ℕ, zero, suc, ◌+◌, ◌<◌, ◌≡◌, ◌≢◌, arith, some, Bool-cases, ◌==◌, inl, inr}
use judd_os.Prelude.Memory.{Memory}
use judd_os.CString.{strlen_from, strlen}

-- The string at `s` has `n` bytes before its terminating zero.
pub record IsString (m : Memory) (s n : ℕ) : Type 0 where
  pub ends : m (s + n) ≡ 0
  pub before : (i : ℕ) → i < n → m (s + i) ≢ 0

strlen_from_lem :
    (fuel : ℕ) (m : Memory) (s n len left : ℕ)
    → IsString m s n
    → len + left ≡ n
    → left < fuel
    → strlen_from fuel m s len ≡ some n
unfolding strlen_from
strlen_from_lem zero m s n len left h e lt = absurd (omega arith)
strlen_from_lem (suc fuel) m s n len zero h e lt = ground (arith, h.ends)
strlen_from_lem (suc fuel) m s n len (suc left) h e lt =
    ground (arith, h.before len, strlen_from_lem fuel m s n (len + 1) left h)

-- With more fuel than the string has bytes, `strlen` returns their number.
pub strlen_lem :
    (fuel : ℕ) (m : Memory) (s n : ℕ) → IsString m s n → n < fuel → strlen fuel m s ≡ some n
unfolding strlen
strlen_lem fuel m s n h lt = strlen_from_lem fuel m s n 0 n h (omega arith) lt

strlen_from-IsString :
    (fuel : ℕ) (m : Memory) (s len n : ℕ)
    → ((i : ℕ) → i < len → m (s + i) ≢ 0)
    → strlen_from fuel m s len ≡ some n
    → IsString m s n
unfolding strlen_from
strlen_from-IsString zero m s len n before e = cc
strlen_from-IsString (suc fuel) m s len n before e = elim (Bool-cases (m (s + len) == 0)) [
  | inl stop ↦
      (let same : len ≡ n = ground arith in
        record { ends = ground arith; before = λ i p. before i (omega arith) })
  | inr go_on ↦
      strlen_from-IsString fuel m s (len + 1) n (λ i p. ground (arith, before i)) (ground arith)
]

pub strlen-IsString : (fuel : ℕ) (m : Memory) (s n : ℕ) → strlen fuel m s ≡ some n → IsString m s n
unfolding strlen
strlen-IsString fuel m s n e = strlen_from-IsString fuel m s 0 n (λ i p. absurd (omega arith)) e

strlen_from_more :
    (fuel : ℕ) (m : Memory) (s len n : ℕ)
    → strlen_from fuel m s len ≡ some n
    → strlen_from (suc fuel) m s len ≡ some n
unfolding strlen_from
strlen_from_more zero m s len n e = cc
strlen_from_more (suc fuel) m s len n e = ground (arith, strlen_from_more fuel m s (len + 1) n)

-- More fuel changes nothing.
pub strlen_more :
    (fuel : ℕ) (m : Memory) (s n : ℕ) → strlen fuel m s ≡ some n → strlen (suc fuel) m s ≡ some n
unfolding strlen
strlen_more fuel m s n e = strlen_from_more fuel m s 0 n e
