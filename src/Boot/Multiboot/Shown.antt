-- ===== src/Boot/Multiboot/Shown.antt =====
-- A message of `entry` comes to its end, and no memory below the screen changes.
use judd_os.Prelude.{
  true, ℕ, ◌+◌, ◌*◌, ◌^◌, ◌<◌, ◌≤◌, ◌≡◌, ◌∙◌, sym, ap, arith, refl, List, [], ◌∷◌, get_or, length,
  Option, some, >>=-some, >>=-eq-some, some_injective, ◌==◌, ◌||◌, if_split, Bool,
}
use judd_os.Prelude.Memory.{Memory, store, store_self, store_ne, IsBytes, load32}
use judd_os.Interrupts.{place}
use judd_os.Interrupts.Handlers.{place_before}
use judd_os.Print.{printf}
use judd_os.Print.Kinds.{AllFit, kinds, outside}
use judd_os.Print.Total.{Holds, printf_returns}
use judd_os.Terminal.{Console, putc, put_cell, video_mem}
use judd_os.Boot.Multiboot.{put_all, say, when}

-- Nothing below the screen differs.
abbrev pub Below : Memory → Memory → Type 0
Below m m' = (x : ℕ) → x < 0xB8000 → m' x ≡ m x

putc-Below : (ch : ℕ) (c : Console) → Below c.mem (putc ch c).mem
unfolding putc put_cell
putc-Below ch c x low =
    if_split (λ (d : Console). d.mem x ≡ c.mem x) ((ch == 10) || (ch == 13)) (λ e. refl)
      (λ e.
        store_ne _ (video_mem + (80 * c.screen_y + c.screen_x) * 2 + 1) _ x (omega (arith, low))
        ∙ store_ne _ (video_mem + (80 * c.screen_y + c.screen_x) * 2) _ x (omega (arith, low)))

put_all-Below : (out : List ℕ) (c : Console) → Below c.mem (put_all out c).mem
unfolding put_all
put_all-Below [] c x low = refl
put_all-Below (ch ∷ rest) c x low = put_all-Below rest (putc ch c) x low ∙ putc-Below ch c x low

place-Holds : (m : Memory) (a : ℕ) (text : List ℕ) → Holds (place m a text) a text
unfolding place
place-Holds m a [] = store_self m a 0
place-Holds m a (c ∷ rest) = (
  place_before _ (a + 1) rest a (omega arith) ∙ store_self m a c,
  place-Holds (store m a c) (a + 1) rest,
)

-- A literal is below no address of the screen.
abbrev pub IsHigh : (List ℕ → ℕ) → Type 0
IsHigh lit = (text : List ℕ) → 0xB8000 ≤ lit text

pub place-Below : (m : Memory) (a : ℕ) (text : List ℕ) → 0xB8000 ≤ a → Below m (place m a text)
place-Below m a text high x low = place_before m a text x (omega (arith, high, low))

-- The message comes to its end.
pub say_lem :
    (limit fuel conv : ℕ) (lit : List ℕ → ℕ) (format args : List ℕ) (c : Console)
    → 12 ≤ limit
    → length format + limit ≤ fuel
    → AllFit (place c.mem (lit format) format) limit (λ i. get_or args i 0) (kinds outside format) 0
    → (c' : Console) × (say fuel conv lit format args c ≡ some c') × Below c.mem c'.mem
unfolding say
say_lem limit fuel conv lit format args c big enough fit =
    let (out, size, runs) =
      printf_returns limit fuel (place c.mem (lit format) format) conv (λ i. get_or args i 0) format
        (lit format) big (place-Holds c.mem (lit format) format) enough fit in
    (put_all out c, >>=-some _ runs, put_all-Below out c)

put_all-tables : (out : List ℕ) (c : Console) → (put_all out c).tables ≡ c.tables
unfolding put_all putc
put_all-tables [] c = refl
put_all-tables (ch ∷ rest) c =
    put_all-tables rest (putc ch c)
    ∙ if_split (λ (d : Console). d.tables ≡ c.tables) ((ch == 10) || (ch == 13)) (λ e. refl)
        (λ e. refl)

-- A message does not change the page tables.
pub say-tables :
    (fuel conv : ℕ) (lit : List ℕ → ℕ) (format args : List ℕ) (c c' : Console)
    → say fuel conv lit format args c ≡ some c'
    → c'.tables ≡ c.tables
unfolding say
say-tables fuel conv lit format args c c' e =
    let ((out, size), e1, f1) =
      >>=-eq-some
        (printf fuel (place c.mem (lit format) format) conv (lit format) (λ i. get_or args i 0)) _
        e in
    ap (λ d. d.tables) (sym (some_injective f1)) ∙ put_all-tables out c

-- A step that ends and changes nothing below the screen.
abbrev pub Ends : Option Console → Console → Type 0
Ends o c = (c' : Console) × (o ≡ some c') × Below c.mem c'.mem

pub when_lem :
    (b : Bool) (f : Console → Option Console) (c : Console)
    → (b ≡ true → Ends (f c) c)
    → Ends (when b f c) c
when_lem b f c runs = if_split (λ o. Ends o c) b runs (λ off. (c, refl, λ x low. refl))

pub load32-small : (m : Memory) (a : ℕ) → IsBytes m → load32 m a < 2 ^ 32
unfolding load32
load32-small m a b = omega (arith, b a, b (a + 1), b (a + 2), b (a + 3))
