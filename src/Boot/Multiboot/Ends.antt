-- ===== src/Boot/Multiboot/Ends.antt =====
-- `entry` comes to the end of its first part, and has found the file system.
use judd_os.Prelude.{
  ℕ, ◌+◌, ◌^◌, ◌<◌, ◌≤◌, ◌≡◌, ◌∙◌, sym, ap, arith, refl, List, [], ◌∷◌, Option, some, >>=-some,
  ◌>>=◌, ◌==◌, ◌&&◌, not, ltb, inl, inr, if_true, if_false, Bool, if◌then◌else◌, Bool-cases, leb,
}
use judd_os.Prelude.Text.{codes}
use judd_os.Prelude.Memory.{Memory}
use judd_os.Terminal.{Console, clear, video_mem}
use judd_os.Terminal.Scroll.{clear_lem}
use judd_os.Boot.Multiboot.{
  word, check_flag, Check, stopped, passed, say, show_modules, show_rest, show_info, check_boot,
}
use judd_os.Boot.Multiboot.Shown.{Below, IsHigh, say_lem, Ends}
use judd_os.Boot.Multiboot.Loops.{last_start, show_modules_lem}
use judd_os.Boot.Multiboot.Info.{
  IsInfo, info_word, info_small, flag_same, when-say, show_rest_lem, cmdline_fits,
}

module _ (rounds limit fuel conv : ℕ) (lit : List ℕ → ℕ) (m : Memory) (mbi : ℕ)
    (info : IsInfo rounds limit m mbi) (big : 12 ≤ limit) (enough : 128 + limit ≤ fuel)
    (high : IsHigh lit) where
  -- Both bits 4 and 5 are set.
  abbrev pub conflict : Bool
  conflict = check_flag (word m mbi 0) 4 && check_flag (word m mbi 0) 5

  -- `FILESYSTEM_ADDR` after the part, if it was `before`.
  abbrev pub module_start : ℕ → ℕ
  module_start before =
      if check_flag (word m mbi 0) 3
      then last_start limit fuel conv lit m info.bytes big enough high (word m mbi 5) (word m mbi 6)
          before
      else before

  -- How the part ends.
  abbrev pub check_of : ℕ → Console → Check
  check_of before c =
      if conflict then stopped (module_start before) c else passed (module_start before) c

  modules_lem :
      (before : ℕ) (c : Console)
      → Below m c.mem
      → (c' : Console) × ((if check_flag (word c.mem mbi 0) 3
            then show_modules fuel conv lit rounds mbi (word c.mem mbi 6) 0 before c
            else some (before, c))
          ≡ some (module_start before, c'))
        × Below c.mem c'.mem
  modules_lem before c same =
      let here = flag_same rounds limit fuel conv lit m mbi info big enough high c 3 same in
      elim (Bool-cases (check_flag (word m mbi 0) 3)) [
        | inl on ↦
            (let (fits, enough_rounds) = info.modules on in
              let (c1, e1, b1) =
                show_modules_lem limit fuel conv lit m info.bytes big enough high (word m mbi 5)
                  rounds mbi (word m mbi 6) 0 before c same info.low (omega arith) fits
                  (omega arith) enough_rounds in
              (
                c1,
                if_true {b = check_flag (word c.mem mbi 0) 3} _ _ (here ∙ on)
                    ∙ ap (λ a. show_modules fuel conv lit rounds mbi a 0 before c)
                        (info_word rounds limit fuel conv lit m mbi info big enough high c 6 same
                          (omega arith))
                    ∙ e1
                    ∙ ap (λ a. some (a, c1))
                        (sym (if_true {b = check_flag (word m mbi 0) 3} _ _ on)),
                b1,
              ))
        | inr off ↦ (
          c,
          if_false {b = check_flag (word c.mem mbi 0) 3} _ _ (here ∙ off)
              ∙ ap (λ a. some (a, c)) (sym (if_false {b = check_flag (word m mbi 0) 3} _ _ off)),
          λ x low. refl,
        )
      ]

  -- A step that ends, and then the rest of the part.
  then_lem :
      (before : ℕ) (o : Option Console) (c : Console) (f : Console → Option Check)
      → Below m c.mem
      → Ends o c
      → ((c1 : Console)
          → Below m c1.mem
          → (c' : Console) × (f c1 ≡ some (check_of before c')) × Below m c'.mem)
      → (c' : Console) × ((o >>= f) ≡ some (check_of before c')) × Below m c'.mem
  then_lem before o c f same (c1, e, b) rest =
      let (c', e', b') = rest c1 (λ x low. b x low ∙ same x low) in (c', >>=-some f e ∙ e', b')

  show_found :
      (before : ℕ) (c : Console)
      → Below m c.mem
      → (c' : Console) × (((if check_flag (word c.mem mbi 0) 3
              then show_modules fuel conv lit rounds mbi (word c.mem mbi 6) 0 before c
              else some (before, c))
            >>= λ (r : ℕ × Console). show_rest fuel conv lit rounds mbi r.0 r.1)
          ≡ some (check_of before c'))
        × Below m c'.mem
  show_found before c same =
      let (c1, e1, b1) = modules_lem before c same in
      let same1 : Below m c1.mem = (λ x low. b1 x low ∙ same x low) in
      let (c2, e2, b2) =
        show_rest_lem rounds limit fuel conv lit m mbi info big enough high (module_start before) c1
          same1 in
      (c2, >>=-some _ e1 ∙ e2, λ x low. b2 x low ∙ same1 x low)

  show_info_lem :
      (before : ℕ) (c : Console)
      → Below m c.mem
      → (c' : Console) × (show_info fuel conv lit rounds mbi before c ≡ some (check_of before c'))
        × Below m c'.mem
  unfolding show_info
  show_info_lem before c same =
      then_lem before (say fuel conv lit (codes "flags = 0x%#x\n") (word c.mem mbi 0 ∷ []) c) c _
        same
        (say_lem limit fuel conv lit (codes "flags = 0x%#x\n") (word c.mem mbi 0 ∷ []) c big
          (omega (arith, enough))
          (
            info_small rounds limit fuel conv lit m mbi info big enough high c 0 same (omega arith),
            tt,
          ))
        (λ c1 s1.
          then_lem before _ c1 _ s1
            (when-say rounds limit fuel conv lit m mbi info big enough high
              (check_flag (word c1.mem mbi 0) 0) (codes "mem_lower = %uKB, mem_upper = %uKB\n")
              (word c1.mem mbi 1 ∷ word c1.mem mbi 2 ∷ []) c1 (omega (arith, enough))
              (λ on. (
                info_small rounds limit fuel conv lit m mbi info big enough high c1 1 s1
                    (omega arith),
                (
                  info_small rounds limit fuel conv lit m mbi info big enough high c1 2 s1
                      (omega arith),
                  tt,
                ),
              )))
            (λ c2 s2.
              then_lem before _ c2 _ s2
                (when-say rounds limit fuel conv lit m mbi info big enough high
                  (check_flag (word c2.mem mbi 0) 1) (codes "boot_device = 0x%#x\n")
                  (word c2.mem mbi 3 ∷ []) c2 (omega (arith, enough))
                  (λ on. (
                    info_small rounds limit fuel conv lit m mbi info big enough high c2 3 s2
                        (omega arith),
                    tt,
                  )))
                (λ c3 s3.
                  then_lem before _ c3 _ s3
                    (when-say rounds limit fuel conv lit m mbi info big enough high
                      (check_flag (word c3.mem mbi 0) 2) (codes "cmdline = %s\n")
                      (word c3.mem mbi 4 ∷ []) c3 (omega (arith, enough))
                      (λ on. (
                        cmdline_fits rounds limit fuel conv lit m mbi info big enough high c3 s3 on,
                        tt,
                      )))
                    (λ c4 s4. show_found before c4 s4))))

  clear-Below : (c : Console) → Below c.mem (clear c).mem
  clear-Below c x low =
      clear_lem c x
      ∙ if_false {b = leb video_mem x && ltb x (video_mem + 4000)} _ _ (ground (arith, low))

  -- When the structure of the boot loader, its command line, the entries of the modules and the memory map lie below the screen and the literals of the kernel do not, with more
  -- rounds than there are modules and entries of the map, and for a message 140 rounds, and 129 more than the command line has characters, the first part of `entry` ends. With another
  -- magic number, or with both of the bits 4 and 5, `entry` returns; otherwise it goes on. `FILESYSTEM_ADDR` is the start of the last module, if
  -- the magic number is right, bit 3 is set and there is a module, and what it was before otherwise. No byte below the screen has changed.
  pub check_boot_lem :
      (magic before : ℕ) (c : Console)
      → c.mem ≡ m
      → magic < 2 ^ 32
      → (c' : Console) × (check_boot fuel conv lit rounds magic mbi before c
          ≡ some (if magic == 0x2BADB002 then check_of before c' else stopped before c'))
        × Below c.mem c'.mem
  unfolding check_boot
  check_boot_lem magic before c start fits =
      let same : Below m (clear c).mem = (λ x low. clear-Below c x low ∙ ap (λ w. w x) start) in
      let back : (c' : Console) → Below m c'.mem → Below c.mem c'.mem =
        (λ c' b x low. b x low ∙ ap (λ w. w x) (sym start)) in
      elim (Bool-cases (magic == 0x2BADB002)) [
        | inl good ↦
            (let (c', e, b) = show_info_lem before (clear c) same in
              (
                c',
                if_false {b = not (magic == 0x2BADB002)} _ _ (ap not good)
                    ∙ e
                    ∙ ap some (sym (if_true {b = magic == 0x2BADB002} _ _ good)),
                back c' b,
              ))
        | inr bad ↦
            (let (c', e, b) =
                say_lem limit fuel conv lit (codes "Invalid magic number: 0x%#x\n") (magic ∷ [])
                  (clear c) big (omega (arith, enough)) (fits, tt) in
              (
                c',
                if_true {b = not (magic == 0x2BADB002)} _ _ (ap not bad)
                    ∙ >>=-some _ e
                    ∙ ap some (sym (if_false {b = magic == 0x2BADB002} _ _ bad)),
                back c' (λ x low. b x low ∙ same x low),
              ))
      ]
