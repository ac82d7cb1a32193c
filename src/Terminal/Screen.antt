-- ===== src/Terminal/Screen.antt =====
-- A cursor on the screen, and what an operation on the current terminal leaves alone.
use judd_os.Prelude.Word.{PortWrite, u32}
use judd_os.Prelude.{
  List, Bool, true, false, leb, if◌then◌else◌, subst, sym, ℕ, ◌+◌, ◌<◌, ◌≤◌, ◌≡◌, ◌≢◌, ◌∙◌, ◌⊎◌,
  refl, arith, ap,
}
use judd_os.Prelude.Memory.{Memory, store}
use judd_os.Paging.{put}
use judd_os.Terminal.{
  update_cursor, Terminal, Console, put_cell, scroll_screen, screen_of, set_terminal, scroll_up,
}
use judd_os.Terminal.Scroll.{scroll_screen_lem}

-- The terminal of the running process, and the first byte of its screen.
abbrev pub current : Console → Terminal
current c = c.terminal_arr c.terminal_num

abbrev pub base : Console → ℕ
base c = screen_of c.tables (current c)

-- A cursor on the screen; one column further at most in the middle of an iteration.
pub record InScreen (columns : ℕ) (c : Console) : Type 0 where
  pub column : (current c).cursor_x ≤ columns
  pub row : (current c).cursor_y < 25

-- What writing to the terminal may not touch.
pub record Kept (c d : Console) : Type 0 where
  pub same_num : d.terminal_num ≡ c.terminal_num
  pub same_display : d.terminal_num_display ≡ c.terminal_num_display
  pub same_tables : d.tables ≡ c.tables
  pub same_page : (current d).vidmem_addr ≡ (current c).vidmem_addr
  pub same_top : (current d).screen_buf_top ≡ (current c).screen_buf_top
  pub same_line : (current d).screen_buf ≡ (current c).screen_buf
  pub others : (i : ℕ) → i ≢ c.terminal_num → d.terminal_arr i ≡ c.terminal_arr i
  pub outside : (x : ℕ) → (x < base c) ⊎ (base c + 4000 ≤ x) → d.mem x ≡ c.mem x

pub Kept-refl : (c : Console) → Kept c c
Kept-refl c = record {
  same_num = refl;
  same_display = refl;
  same_tables = refl;
  same_page = refl;
  same_top = refl;
  same_line = refl;
  others = λ i h. refl;
  outside = λ x h. refl;
}

pub Kept-base : (c d : Console) → Kept c d → base d ≡ base c
unfolding screen_of
Kept-base c d p = cc (p.same_tables, p.same_page)

pub Kept-trans : (c d e : Console) → Kept c d → Kept d e → Kept c e
Kept-trans c d e p q =
    let b = Kept-base c d p in
    record {
      same_num = q.same_num ∙ p.same_num;
      same_display = q.same_display ∙ p.same_display;
      same_tables = q.same_tables ∙ p.same_tables;
      same_page = q.same_page ∙ p.same_page;
      same_top = q.same_top ∙ p.same_top;
      same_line = q.same_line ∙ p.same_line;
      others = λ i h. q.others i (λ e. h (e ∙ p.same_num)) ∙ p.others i h;
      outside =
          λ x h. q.outside x (subst (λ a. (x < a) ⊎ (a + 4000 ≤ x)) (sym b) h) ∙ p.outside x h;
    }

pub put_self : {A : Type 0} (n : ℕ) (v : A) (f : ℕ → A) → put n v f n ≡ v
unfolding put
put_self n v f = ground arith

put_other : {A : Type 0} (n i : ℕ) (v : A) (f : ℕ → A) → i ≢ n → put n v f i ≡ f i
unfolding put
put_other n i v f h = ground arith

-- All that the functions do: a cursor and a memory.
abbrev pub placed : ℕ → ℕ → Memory → Console → Console
placed x y m c =
    set_terminal c.terminal_num (record (current c) { cursor_x = x; cursor_y = y })
      (record c { mem = m })

pub current-placed :
    (x y : ℕ) (m : Memory) (c : Console)
    → current (placed x y m c) ≡ record (current c) { cursor_x = x; cursor_y = y }
unfolding set_terminal
current-placed x y m c = put_self c.terminal_num _ c.terminal_arr

pub placed-Kept :
    (x y : ℕ) (m : Memory) (c : Console)
    → ((a : ℕ) → (a < base c) ⊎ (base c + 4000 ≤ a) → m a ≡ c.mem a)
    → Kept c (placed x y m c)
unfolding set_terminal
placed-Kept x y m c h =
    let now = current-placed x y m c in
    record {
      same_num = refl;
      same_display = refl;
      same_tables = refl;
      same_page = ap (λ (t : Terminal). t.vidmem_addr) now;
      same_top = ap (λ (t : Terminal). t.screen_buf_top) now;
      same_line = ap (λ (t : Terminal). t.screen_buf) now;
      others = λ i other. put_other c.terminal_num i _ c.terminal_arr other;
      outside = h;
    }

placed-InScreen :
    (k x y : ℕ) (m : Memory) (c : Console) → x ≤ k → y < 25 → InScreen k (placed x y m c)
placed-InScreen k x y m c hx hy =
    let now = current-placed x y m c in
    record {
      column = subst (λ (t : Terminal). t.cursor_x ≤ k) (sym now) hx;
      row = subst (λ (t : Terminal). t.cursor_y < 25) (sym now) hy;
    }

-- A console that keeps the rest of `c` and has its cursor on the screen.
abbrev pub Fine : ℕ → Console → Console → Type 0
Fine k c d = Kept c d × InScreen k d

pub placed-Fine :
    (k x y : ℕ) (m : Memory) (c : Console)
    → x ≤ k
    → y < 25
    → ((a : ℕ) → (a < base c) ⊎ (base c + 4000 ≤ a) → m a ≡ c.mem a)
    → Fine k c (placed x y m c)
placed-Fine k x y m c hx hy h = (placed-Kept x y m c h, placed-InScreen k x y m c hx hy)

pub scroll_up-Fine : (k : ℕ) (c : Console) → Fine k c (scroll_up c)
unfolding scroll_up
scroll_up-Fine k c =
    placed-Fine k 0 24 (scroll_screen (base c) c.mem) c (omega arith) (omega arith)
      ((scroll_screen_lem (base c) c.mem).3)

pub put_cell_out :
    (b cell ch : ℕ) (m : Memory) (a : ℕ)
    → cell < 2000
    → (a < b) ⊎ (b + 4000 ≤ a)
    → put_cell b cell ch m a ≡ m a
unfolding put_cell store
put_cell_out b cell ch m a low h = ground arith

-- A conditional whose two sides have a property, each under its condition.
pub if_both :
    {A : Type 0} (P : A → Type 0) (b : Bool) (x y : A)
    → (b ≡ true → P x)
    → (b ≡ false → P y)
    → P (if b then x else y)
if_both P true x y p q = p refl
if_both P false x y p q = q refl

-- For a cursor on the screen, `update_cursor` only writes to ports.
pub update_cursor_still :
    (Q : Console → Type 0) (c : Console) (x y : ℕ)
    → x < 80
    → y < 25
    → ((w : List PortWrite) → Q (record c { writes = w }))
    → Q (update_cursor x y c)
unfolding update_cursor
update_cursor_still Q c x y hx hy q =
    let below = leb 25 (if leb 80 x then u32 (y + 1) else y) in
    if_both (λ d. (w : List PortWrite) → Q (record d { writes = w })) below (scroll_up c) c
      (λ low. absurd (ground arith)) (λ high. q) _
