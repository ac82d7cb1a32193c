-- ===== src/Block/Reference.antt =====
-- What a fill and a copy mean, byte by byte, with no word in between.
use judd_os.Prelude.{ℕ, ◌+◌, ◌-◌, ◌≤◌, ◌<◌, ◌≡◌, arith, ◌&&◌, ◌⊎◌, leb, ltb, if◌then◌else◌}
use judd_os.Prelude.Memory.{Memory}

abbrev pub filled : Memory → ℕ → ℕ → ℕ → Memory
filled m s c n x = if leb s x && ltb x (s + n) then c else m x

abbrev pub copied : Memory → ℕ → ℕ → ℕ → Memory
copied m dest src n x = if leb dest x && ltb x (dest + n) then m (src + (x - dest)) else m x

-- Two regions of `n` bytes that do not meet.
abbrev pub Disjoint : ℕ → ℕ → ℕ → Type 0
Disjoint a b n = (a + n ≤ b) ⊎ (b + n ≤ a)

pub copied_in :
    (m : Memory) (dest src n i : ℕ) → i < n → copied m dest src n (dest + i) ≡ m (src + i)
copied_in m dest src n i h = ground arith

pub copied_out :
    (m : Memory) (dest src n x : ℕ) → (x < dest) ⊎ (dest + n ≤ x) → copied m dest src n x ≡ m x
copied_out m dest src n x h = ground arith

pub filled_in : (m : Memory) (s c n i : ℕ) → i < n → filled m s c n (s + i) ≡ c
filled_in m s c n i h = ground arith

pub filled_out : (m : Memory) (s c n x : ℕ) → (x < s) ⊎ (s + n ≤ x) → filled m s c n x ≡ m x
filled_out m s c n x h = ground arith
