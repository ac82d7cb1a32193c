-- ===== src/Boot/Multiboot/Loops.antt =====
-- The loops of the first part of `entry`, over the modules and over the memory map.
use judd_os.Prelude.{
  ℕ, zero, suc, ◌+◌, ◌*◌, ◌^◌, ◌<◌, ◌≤◌, ◌≡◌, ◌∙◌, sym, ap, subst, arith, refl, List, [], ◌∷◌, some,
  >>=-some, ltb, if_true, if_false,
}
use judd_os.Prelude.Word.{u32}
use judd_os.Prelude.Text.{codes}
use judd_os.Prelude.Memory.{Memory, IsBytes}
use judd_os.FileSystem.Frame.{Agree-load32}
use judd_os.Terminal.{Console}
use judd_os.Boot.Multiboot.{word, promoted, show_bytes, show_module, show_modules, show_map}
use judd_os.Boot.Multiboot.Shown.{Below, IsHigh, say_lem, Ends, load32-small}

-- The entries of the memory map from `at` on end within so many rounds, below the screen.
pub data MapEnds (m : Memory) (end : ℕ) : ℕ → ℕ → Type 0 where
  ended : (rounds at : ℕ) → end ≤ at → MapEnds m end (suc rounds) at
  entry :
      (rounds at : ℕ)
      → at < end
      → at + 24 ≤ 0xB8000
      → MapEnds m end rounds (u32 (at + word m at 0 + 4))
      → MapEnds m end (suc rounds) at

module _ (limit fuel conv : ℕ) (lit : List ℕ → ℕ) (m : Memory) (bytes : IsBytes m)
    (big : 12 ≤ limit) (enough : 128 + limit ≤ fuel) (high : IsHigh lit) where
  pub same_word :
      (c : Console) (a i : ℕ)
      → Below m c.mem
      → a + 4 * i + 4 ≤ 0xB8000
      → word c.mem a i ≡ word m a i
  same_word c a i same low =
      Agree-load32 0 0xB8000 m c.mem (a + 4 * i) (λ x from to. same x to) (omega arith) low

  pub small_word :
      (c : Console) (a i : ℕ) → Below m c.mem → a + 4 * i + 4 ≤ 0xB8000 → word c.mem a i < 2 ^ 32
  small_word c a i same low =
      subst (λ w. w < 2 ^ 32) (sym (same_word c a i same low)) (load32-small m (a + 4 * i) bytes)

  -- What is the same below the screen stays so.
  pub kept : (c c' : Console) → Below m c.mem → Below c.mem c'.mem → Below m c'.mem
  kept c c' same same' x low = same' x low ∙ same x low

  show_bytes_lem : (left i at : ℕ) (c : Console) → Ends (show_bytes fuel conv lit left i at c) c
  unfolding show_bytes
  show_bytes_lem zero i at c = (c, refl, λ x low. refl)
  show_bytes_lem (suc left) i at c =
      let (c1, e1, b1) =
        say_lem limit fuel conv lit (codes "0x%x ") (promoted (c.mem (word c.mem at 0 + i)) ∷ []) c
          big (omega (arith, enough)) (omega arith, tt) in
      let (c2, e2, b2) = show_bytes_lem left (i + 1) at c1 in
      (c2, >>=-some _ e1 ∙ e2, λ x low. b2 x low ∙ b1 x low)

  show_module_lem :
      (at mod_count : ℕ) (c : Console)
      → Below m c.mem
      → at + 16 ≤ 0xB8000
      → mod_count < 2 ^ 32
      → Ends (show_module fuel conv lit at mod_count c) c
  unfolding show_module
  show_module_lem at mod_count c same low small =
      let (c1, e1, b1) =
        say_lem limit fuel conv lit (codes "Module %d loaded at address: 0x%#x\n")
          (mod_count ∷ word c.mem at 0 ∷ []) c big (omega (arith, enough))
          (small, (small_word c at 0 same (omega (arith, low)), tt)) in
      let (c2, e2, b2) =
        say_lem limit fuel conv lit (codes "Module %d ends at address: 0x%#x\n")
          (mod_count ∷ word c1.mem at 1 ∷ []) c1 big (omega (arith, enough))
          (small, (small_word c1 at 1 (kept c c1 same b1) (omega (arith, low)), tt)) in
      let (c3, e3, b3) =
        say_lem limit fuel conv lit (codes "First few bytes of module:\n") [] c2 big
          (omega (arith, enough)) tt in
      let (c4, e4, b4) = show_bytes_lem 16 0 at c3 in
      let (c5, e5, b5) =
        say_lem limit fuel conv lit (codes "\n") [] c4 big (omega (arith, enough)) tt in
      (
        c5,
        >>=-some _ e1 ∙ >>=-some _ e2 ∙ >>=-some _ e3 ∙ >>=-some _ e4 ∙ e5,
        λ x low. b5 x low ∙ b4 x low ∙ b3 x low ∙ b2 x low ∙ b1 x low,
      )

  -- `FILESYSTEM_ADDR` after the loop: the start of the last module, if there is one.
  abbrev pub last_start : ℕ → ℕ → ℕ → ℕ
  last_start zero at filesystem_addr = filesystem_addr
  last_start (suc left) at filesystem_addr = last_start left (at + 16) (word m at 0)

  pub show_modules_lem :
      (left rounds mbi at mod_count filesystem_addr : ℕ) (c : Console)
      → Below m c.mem
      → mbi + 52 ≤ 0xB8000
      → mod_count + left ≡ word m mbi 5
      → at + 16 * left ≤ 0xB8000
      → 16 * mod_count ≤ at
      → left < rounds
      → (c' : Console) × (show_modules fuel conv lit rounds mbi at mod_count filesystem_addr c
          ≡ some (last_start left at filesystem_addr, c'))
        × Below c.mem c'.mem
  unfolding show_modules
  show_modules_lem left zero mbi at mod_count filesystem_addr c same low count fits past
        enough_rounds =
      absurd (omega (arith, enough_rounds))
  show_modules_lem zero (suc rounds) mbi at mod_count filesystem_addr c same low count fits past
        enough_rounds =
      let here = same_word c mbi 5 same (omega (arith, low)) in
      (
        c,
        if_false {b = ltb mod_count (word c.mem mbi 5)} _ _ (ground (arith, here, count)),
        λ x low. refl,
      )
  show_modules_lem (suc left) (suc rounds) mbi at mod_count filesystem_addr c same low count fits
        past enough_rounds =
      let here = same_word c mbi 5 same (omega (arith, low)) in
      let (c1, e1, b1) =
        show_module_lem at mod_count c same (omega (arith, fits)) (omega (arith, past, fits)) in
      let (c2, e2, b2) =
        show_modules_lem left rounds mbi (at + 16) (mod_count + 1) (word c.mem at 0) c1
          (kept c c1 same b1) low (omega (arith, count)) (omega (arith, fits)) (omega (arith, past))
          (omega (arith, enough_rounds)) in
      (
        c2,
        if_true {b = ltb mod_count (word c.mem mbi 5)} _ _ (ground (arith, here, count))
            ∙ >>=-some _ e1
            ∙ e2
            ∙ ap (λ w. some (last_start left (at + 16) w, c2))
                (same_word c at 0 same (omega (arith, fits))),
        λ x low. b2 x low ∙ b1 x low,
      )

  pub show_map_lem :
      (mbi rounds at : ℕ) (c : Console)
      → Below m c.mem
      → mbi + 52 ≤ 0xB8000
      → MapEnds m (u32 (word m mbi 12 + word m mbi 11)) rounds at
      → Ends (show_map fuel conv lit rounds mbi at c) c
  unfolding show_map
  show_map_lem mbi rounds at c same low (ended left at' past) =
      let here = same_word c mbi 12 same (omega (arith, low)) in
      let here' = same_word c mbi 11 same (omega (arith, low)) in
      (
        c,
        if_false {b = ltb at (u32 (word c.mem mbi 12 + word c.mem mbi 11))} _ _
            (ground (arith, here, here', past)),
        λ x low. refl,
      )
  show_map_lem mbi rounds at c same low (entry left at' before fits later) =
      let here = same_word c mbi 12 same (omega (arith, low)) in
      let here' = same_word c mbi 11 same (omega (arith, low)) in
      let small : (i : ℕ) → i < 6 → word c.mem at i < 2 ^ 32 =
        (λ i h. small_word c at i same (omega (arith, fits, h))) in
      let (c1, e1, b1) =
        say_lem limit fuel conv lit
          (codes "    size = 0x%x, base_addr = 0x%#x%#x\n    type = 0x%x,  length    = 0x%#x%#x\n")
          (word c.mem at 0
            ∷ word c.mem at 2
            ∷ word c.mem at 1
            ∷ word c.mem at 5
            ∷ word c.mem at 4
            ∷ word c.mem at 3
            ∷ [])
          c big (omega (arith, enough))
          (
            small 0 (omega arith),
            (
              small 2 (omega arith),
              (
                small 1 (omega arith),
                (small 5 (omega arith), (small 4 (omega arith), (small 3 (omega arith), tt))),
              ),
            ),
          ) in
      let same1 = kept c c1 same b1 in
      let step : u32 (at + word c1.mem at 0 + 4) ≡ u32 (at + word m at 0 + 4) =
        ap (λ w. u32 (at + w + 4)) (same_word c1 at 0 same1 (omega (arith, fits))) in
      let (c2, e2, b2) = show_map_lem mbi left (u32 (at + word m at 0 + 4)) c1 same1 low later in
      (
        c2,
        if_true {b = ltb at (u32 (word c.mem mbi 12 + word c.mem mbi 11))} _ _
              (ground (arith, here, here', before))
            ∙ >>=-some _ e1
            ∙ ap (λ a. show_map fuel conv lit left mbi a c1) step
            ∙ e2,
        λ x low. b2 x low ∙ b1 x low,
      )
