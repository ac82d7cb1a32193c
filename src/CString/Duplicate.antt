-- ===== src/CString/Duplicate.antt =====
-- `strcpy` and `strncpy` between strings that do not overlap.
use judd_os.Prelude.{
  ℕ, zero, suc, ◌+◌, ◌-◌, ◌<◌, ◌≡◌, ◌≢◌, arith, some, ◌&&◌, ltb, leb, if◌then◌else◌, fun_ext, ◌==◌,
  ◌∙◌, ◌≤◌, ap₂, true, ◌⊎◌, ap, false,
}
use judd_os.Prelude.Memory.{Memory, store, store_ne}
use judd_os.Block.Reference.{copied, Disjoint}
use judd_os.CString.{strcpy_from, strcpy, strncpy_pad, strncpy_from, strncpy}
use judd_os.CString.Length.{IsString}

store_last : (m : Memory) (d s : ℕ) → m s ≡ 0 → store m d 0 ≡ copied m d s 1
unfolding store
store_last m d s e = fun_ext λ x. ground arith

copied_step :
    (m : Memory) (d s i n : ℕ)
    → Disjoint (d + i) (s + i) (suc n)
    → copied (store m (d + i) (m (s + i))) (d + (i + 1)) (s + (i + 1)) n
      ≡ copied m (d + i) (s + i) (suc n)
unfolding store
copied_step m d s i n h = fun_ext λ x. ground arith

strcpy_from_lem :
    (fuel left : ℕ) (m : Memory) (d s i : ℕ)
    → left < fuel
    → Disjoint (d + i) (s + i) (suc left)
    → m (s + i + left) ≡ 0
    → ((j : ℕ) → j < left → m (s + i + j) ≢ 0)
    → strcpy_from fuel m d s i ≡ some (copied m (d + i) (s + i) (suc left))
unfolding strcpy_from
strcpy_from_lem zero left m d s i lt dis ends before = absurd (omega arith)
strcpy_from_lem (suc fuel) zero m d s i lt dis ends before =
    let last : m (s + i) ≡ 0 = ground (arith, ends) in
    let stop : (m (s + i) == 0) ≡ true = ground arith in
    rw stop (ap some (store_last m (d + i) (s + i) last))
strcpy_from_lem (suc fuel) (suc left) m d s i lt dis ends before =
    let go_on : (m (s + i) == 0) ≡ false = ground (arith, before 0) in
    rw go_on (
      strcpy_from_lem fuel left (store m (d + i) (m (s + i))) d s (i + 1) (omega arith)
        (omega arith) (ground (arith, store_ne m (d + i) (m (s + i)) (s + (i + 1) + left)))
        (λ j p. ground (arith, store_ne m (d + i) (m (s + i)) (s + (i + 1) + j), before (suc j)))
      ∙ ap some (copied_step m d s i (suc left) dis))

-- `strcpy` of a string copies it with its terminating zero, and changes nothing else.
pub strcpy_lem :
    (fuel : ℕ) (m : Memory) (dest src n : ℕ)
    → IsString m src n
    → Disjoint dest src (suc n)
    → n < fuel
    → strcpy fuel m dest src ≡ some (copied m dest src (suc n))
unfolding strcpy
strcpy_lem fuel m dest src n h dis lt =
    strcpy_from_lem fuel n m dest src 0 lt (omega arith) (ground (arith, h.ends))
      (λ j p. ground (arith, h.before j))
    ∙ ap₂ (λ d s. some (copied m d s (suc n))) (omega arith) (omega arith)

-- The `n` bytes at `dest` after a `strncpy` of a string of `k` bytes.
abbrev pub padded : Memory → ℕ → ℕ → ℕ → ℕ → Memory
padded m dest src k n x =
    if leb dest x && ltb x (dest + n)
    then (if ltb (x - dest) k then m (src + (x - dest)) else 0)
    else m x

strncpy_pad_lem :
    (left : ℕ) (m : Memory) (d s i : ℕ) → strncpy_pad left m d i ≡ padded m (d + i) s 0 left
unfolding strncpy_pad store
strncpy_pad_lem zero m d s i = fun_ext λ x. ground arith
strncpy_pad_lem (suc left) m d s i =
    strncpy_pad_lem left (store m (d + i) 0) d s (i + 1) ∙ (fun_ext λ x. ground arith)

padded_step :
    (m : Memory) (d s i k n : ℕ)
    → Disjoint (d + i) (s + i) (suc n)
    → padded (store m (d + i) (m (s + i))) (d + (i + 1)) (s + (i + 1)) k n
      ≡ padded m (d + i) (s + i) (suc k) (suc n)
unfolding store
padded_step m d s i k n h = fun_ext λ x. ground arith

strncpy_from_lem :
    (left k : ℕ) (m : Memory) (d s i : ℕ)
    → Disjoint (d + i) (s + i) left
    → ((j : ℕ) → j < k → j < left → m (s + i + j) ≢ 0)
    → (left ≤ k) ⊎ (m (s + i + k) ≡ 0)
    → strncpy_from left m d s i ≡ padded m (d + i) (s + i) k left
unfolding strncpy_from
strncpy_from_lem zero k m d s i dis before ends = fun_ext λ x. ground arith
strncpy_from_lem (suc left) zero m d s i dis before ends =
    let stop : (m (s + i) == 0) ≡ true = ground (arith, ends) in
    rw stop (strncpy_pad_lem (suc left) m d (s + i) i)
strncpy_from_lem (suc left) (suc k) m d s i dis before ends =
    let go_on : (m (s + i) == 0) ≡ false = ground (arith, before 0) in
    rw go_on (
      strncpy_from_lem left k (store m (d + i) (m (s + i))) d s (i + 1) (omega arith)
        (λ j p q. ground (arith, store_ne m (d + i) (m (s + i)) (s + (i + 1) + j), before (suc j)))
        (ground (arith, store_ne m (d + i) (m (s + i)) (s + (i + 1) + k)))
      ∙ padded_step m d s i k left dis)

-- `strncpy` into `n` bytes copies the string of `k` bytes cut off at `n`, fills what is left with zeros, and
-- changes nothing else.
pub strncpy_lem :
    (m : Memory) (dest src n k : ℕ)
    → IsString m src k
    → Disjoint dest src n
    → strncpy m dest src n ≡ padded m dest src k n
unfolding strncpy
strncpy_lem m dest src n k h dis =
    strncpy_from_lem n k m dest src 0 (omega arith) (λ j p q. ground (arith, h.before j))
      (ground (arith, h.ends))
    ∙ ap₂ (λ d s. padded m d s k n) (omega arith) (omega arith)
