-- ===== src/Boot/Multiboot/Info.antt =====
-- What the boot loader leaves, and the parts of the messages that read it: its words as they were, and the steps from the sections of an ELF kernel on.
use judd_os.Prelude.{
  ℕ, ◌+◌, ◌*◌, ◌^◌, ◌<◌, ◌≤◌, ◌≡◌, ◌∙◌, sym, ap, arith, List, [], ◌∷◌, get_or, length, some,
  >>=-some, ◌&&◌, inl, inr, if_true, if_false, Bool, true, if◌then◌else◌, Bool-cases,
}
use judd_os.Prelude.Word.{u32}
use judd_os.Prelude.Text.{codes}
use judd_os.Prelude.Memory.{Memory, IsBytes}
use judd_os.CString.Length.{IsString}
use judd_os.Interrupts.{place}
use judd_os.Print.Kinds.{AllFit, kinds, outside}
use judd_os.Terminal.{Console}
use judd_os.Boot.Multiboot.{
  word, check_flag, when, stopped, passed, say, show_map, show_memory_map, show_rest,
}
use judd_os.Boot.Multiboot.Shown.{Below, IsHigh, say_lem, Ends, when_lem, place-Below}
use judd_os.Boot.Multiboot.Loops.{MapEnds, same_word, small_word, show_map_lem}

-- What the boot loader leaves below the screen: the structure at `mbi`, the command line, the modules and the memory map, each if
-- its flag is set.
pub record IsInfo (rounds limit : ℕ) (m : Memory) (mbi : ℕ) : Type 0 where
  pub bytes : IsBytes m
  pub low : mbi + 52 ≤ 0xB8000
  pub cmdline :
      check_flag (word m mbi 0) 2 ≡ true
      → (n : ℕ) × IsString m (word m mbi 4) n × (word m mbi 4 + n < 0xB8000) × (n < limit)
  pub modules :
      check_flag (word m mbi 0) 3 ≡ true
      → (word m mbi 6 + 16 * word m mbi 5 ≤ 0xB8000) × (word m mbi 5 < rounds)
  pub map :
      check_flag (word m mbi 0) 6 ≡ true
      → MapEnds m (u32 (word m mbi 12 + word m mbi 11)) rounds (word m mbi 12)

module _ (rounds limit fuel conv : ℕ) (lit : List ℕ → ℕ) (m : Memory) (mbi : ℕ)
    (info : IsInfo rounds limit m mbi) (big : 12 ≤ limit) (enough : 128 + limit ≤ fuel)
    (high : IsHigh lit) where
  -- A word of the structure, as it was.
  pub info_word : (c : Console) (i : ℕ) → Below m c.mem → i < 13 → word c.mem mbi i ≡ word m mbi i
  info_word c i same h =
      same_word limit fuel conv lit m info.bytes big enough high c mbi i same
        (omega (arith, h, info.low))

  pub info_small : (c : Console) (i : ℕ) → Below m c.mem → i < 13 → word c.mem mbi i < 2 ^ 32
  info_small c i same h =
      small_word limit fuel conv lit m info.bytes big enough high c mbi i same
        (omega (arith, h, info.low))

  pub flag_same :
      (c : Console) (i : ℕ)
      → Below m c.mem
      → check_flag (word c.mem mbi 0) i ≡ check_flag (word m mbi 0) i
  flag_same c i same = ap (λ w. check_flag w i) (info_word c 0 same (omega arith))

  -- A message that depends on a flag.
  pub when-say :
      (b : Bool) (text args : List ℕ) (c : Console)
      → length text + limit ≤ fuel
      → (b ≡ true
          → AllFit
              (place c.mem (lit text) text)
              limit
              (λ i. get_or args i 0)
              (kinds outside text)
              0)
      → Ends (when b (say fuel conv lit text args) c) c
  when-say b text args c fits all =
      when_lem b (say fuel conv lit text args) c
        (λ on. say_lem limit fuel conv lit text args c big fits (all on))

  show_memory_map_lem :
      (c : Console)
      → Below m c.mem
      → check_flag (word c.mem mbi 0) 6 ≡ true
      → Ends (show_memory_map fuel conv lit rounds mbi c) c
  unfolding show_memory_map
  show_memory_map_lem c same on =
      let (c1, e1, b1) =
        say_lem limit fuel conv lit (codes "mmap_addr = 0x%#x, mmap_length = 0x%x\n")
          (word c.mem mbi 12 ∷ word c.mem mbi 11 ∷ []) c big (omega (arith, enough))
          (info_small c 12 same (omega arith), (info_small c 11 same (omega arith), tt)) in
      let same1 : Below m c1.mem = (λ x low. b1 x low ∙ same x low) in
      let (c2, e2, b2) =
        show_map_lem limit fuel conv lit m info.bytes big enough high mbi rounds (word m mbi 12) c1
          same1 info.low (info.map (sym (flag_same c 6 same) ∙ on)) in
      (
        c2,
        >>=-some _ e1
            ∙ ap (λ a. show_map fuel conv lit rounds mbi a c1) (info_word c1 12 same1 (omega arith))
            ∙ e2,
        λ x low. b2 x low ∙ b1 x low,
      )

  pub show_rest_lem :
      (filesystem_addr : ℕ) (c : Console)
      → Below m c.mem
      → (c' : Console) × (show_rest fuel conv lit rounds mbi filesystem_addr c
          ≡ some (
              if check_flag (word m mbi 0) 4 && check_flag (word m mbi 0) 5
              then stopped filesystem_addr c'
              else passed filesystem_addr c'))
        × Below c.mem c'.mem
  unfolding show_rest
  show_rest_lem filesystem_addr c same =
      let both : check_flag (word c.mem mbi 0) 4 && check_flag (word c.mem mbi 0) 5
          ≡ (check_flag (word m mbi 0) 4 && check_flag (word m mbi 0) 5) =
        ap (λ w. check_flag w 4 && check_flag w 5) (info_word c 0 same (omega arith)) in
      elim (Bool-cases (check_flag (word m mbi 0) 4 && check_flag (word m mbi 0) 5)) [
        | inl yes' ↦
            (let (c1, e1, b1) =
                say_lem limit fuel conv lit (codes "Both bits 4 and 5 are set.\n") [] c big
                  (omega (arith, enough)) tt in
              (
                c1,
                if_true {b = check_flag (word c.mem mbi 0) 4 && check_flag (word c.mem mbi 0) 5} _ _
                      (both ∙ yes')
                    ∙ >>=-some _ e1
                    ∙ ap some (
                        sym (
                          if_true {b = check_flag (word m mbi 0) 4 && check_flag (word m mbi 0) 5} _
                            _ yes')),
                b1,
              ))
        | inr no' ↦
            (let (c1, e1, b1) =
                when-say (check_flag (word c.mem mbi 0) 5)
                  (codes "elf_sec: num = %u, size = 0x%#x, addr = 0x%#x, shndx = 0x%#x\n")
                  (word c.mem mbi 7 ∷ word c.mem mbi 8 ∷ word c.mem mbi 9 ∷ word c.mem mbi 10 ∷ [])
                  c (omega (arith, enough))
                  (λ on. (
                    info_small c 7 same (omega arith),
                    (
                      info_small c 8 same (omega arith),
                      (info_small c 9 same (omega arith), (info_small c 10 same (omega arith), tt)),
                    ),
                  )) in
              let same1 : Below m c1.mem = (λ x low. b1 x low ∙ same x low) in
              let (c2, e2, b2) =
                when_lem (check_flag (word c1.mem mbi 0) 6)
                  (show_memory_map fuel conv lit rounds mbi) c1
                  (λ on. show_memory_map_lem c1 same1 on) in
              (
                c2,
                if_false {b = check_flag (word c.mem mbi 0) 4 && check_flag (word c.mem mbi 0) 5} _
                      _ (both ∙ no')
                    ∙ >>=-some _ e1
                    ∙ >>=-some _ e2
                    ∙ ap some (
                        sym (
                          if_false {b = check_flag (word m mbi 0) 4 && check_flag (word m mbi 0) 5}
                            _ _ no')),
                λ x low. b2 x low ∙ b1 x low,
              ))
      ]

  pub cmdline_fits :
      (c : Console)
      → Below m c.mem
      → check_flag (word c.mem mbi 0) 2 ≡ true
      → (n : ℕ) × IsString
          (place c.mem (lit (codes "cmdline = %s\n")) (codes "cmdline = %s\n"))
          (word c.mem mbi 4)
          n
        × (n < limit)
  cmdline_fits c same on =
      let (n, string, low, short) = info.cmdline (sym (flag_same c 2 same) ∙ on) in
      let text = codes "cmdline = %s\n" in
      let here : word c.mem mbi 4 ≡ word m mbi 4 = info_word c 4 same (omega arith) in
      let at : (i : ℕ)
          → i ≤ n
          → place c.mem (lit text) text (word c.mem mbi 4 + i) ≡ m (word m mbi 4 + i) =
        (λ i h.
          ap (λ a. place c.mem (lit text) text (a + i)) here
          ∙ place-Below c.mem (lit text) text (high text) (word m mbi 4 + i) (omega (arith, h, low))
          ∙ same (word m mbi 4 + i) (omega (arith, h, low))) in
      (
        n,
        record {
          ends = at n (omega arith) ∙ string.ends;
          before = λ i h e. string.before i h (sym (at i (omega (arith, h))) ∙ e);
        },
        short,
      )
