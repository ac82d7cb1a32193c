-- ===== src/CString/Compare.antt =====
-- `strncmp` returns 0 exactly when the bytes that it compares agree.
use judd_os.Prelude.Word.{sub32}
use judd_os.Prelude.{ℕ, zero, suc, ◌+◌, ◌<◌, ◌≡◌, ◌≢◌, ◌↔◌, arith, refl, ◌≤◌}
use judd_os.Prelude.Memory.{Memory, IsBytes}
use judd_os.CString.{strncmp_from, strncmp, sign_extend, sub32}

sign_extend_sub : (a b : ℕ) → a < 256 → b < 256 → sub32 (sign_extend a) (sign_extend b) ≡ 0 → a ≡ b
sign_extend_sub a b ha hb e = ground arith

strncmp_from_same :
    (left : ℕ) (m : Memory) (s1 s2 i n : ℕ)
    → i + left ≡ n
    → ((j : ℕ) → j < n → m (s1 + j) ≡ m (s2 + j))
    → strncmp_from left m s1 s2 i ≡ 0
unfolding strncmp_from
strncmp_from_same zero m s1 s2 i n e h = refl
strncmp_from_same (suc left) m s1 s2 i n e h =
    ground (arith, h i, strncmp_from_same left m s1 s2 (i + 1) n (omega arith) h)

strncmp_from_zero :
    (left : ℕ) (m : Memory) (s1 s2 i j : ℕ)
    → IsBytes m
    → ((k : ℕ) → k < j → m (s1 + k) ≢ 0)
    → strncmp_from left m s1 s2 i ≡ 0
    → i ≤ j
    → j < i + left
    → m (s1 + j) ≡ m (s2 + j)
unfolding strncmp_from
strncmp_from_zero zero m s1 s2 i j b h e p q = absurd (omega arith)
strncmp_from_zero (suc left) m s1 s2 i j b h e p q = ground (
  arith,
  h i,
  b (s1 + i),
  b (s2 + i),
  sign_extend_sub (m (s1 + i)) (m (s2 + i)),
  strncmp_from_zero left m s1 s2 (i + 1) j b h,
)

-- When the first string has no zero among its first `n` bytes, `strncmp` returns 0 exactly when
-- the second string has the same `n` bytes.
pub strncmp_iff :
    (m : Memory) (s1 s2 n : ℕ)
    → IsBytes m
    → ((i : ℕ) → i < n → m (s1 + i) ≢ 0)
    → (strncmp m s1 s2 n ≡ 0) ↔ ((i : ℕ) → i < n → m (s1 + i) ≡ m (s2 + i))
unfolding strncmp
strncmp_iff m s1 s2 n b h = (
  λ e j p.
      strncmp_from_zero n m s1 s2 0 j b (λ k q. h k (omega arith)) e (omega arith) (omega arith),
  λ same. strncmp_from_same n m s1 s2 0 n (omega arith) same,
)
