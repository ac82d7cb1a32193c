-- ===== src/Keyboard/Line.antt =====
-- `add2buf` and `delete_char_from_buf` on the line being typed.
use judd_os.Prelude.{
  ap₂, List, ℕ, ◌+◌, ◌-◌, ◌<◌, ◌≤◌, ◌≡◌, ◌∙◌, refl, ap, arith, if◌then◌else◌, ◌==◌, leb, ltb, ◌||◌,
}
use judd_os.Prelude.Word.{PortWrite, u8, u32}
use judd_os.Paging.{put}
use judd_os.Terminal.{Terminal, Console, scroll_up, set_terminal, update_cursor, putc_addr}
use judd_os.Terminal.Screen.{if_both, put_self}
use judd_os.Keyboard.{add2buf, delete_char_from_buf}

-- The terminal on display.
abbrev pub shown : Console → Terminal
shown c = c.terminal_arr c.terminal_num_display

-- The same terminal on display, and the same line in each.
record SameLines (c d : Console) : Type 0 where
  same_display : d.terminal_num_display ≡ c.terminal_num_display
  same_line : (i : ℕ) → (d.terminal_arr i).screen_buf ≡ (c.terminal_arr i).screen_buf
  same_top : (i : ℕ) → (d.terminal_arr i).screen_buf_top ≡ (c.terminal_arr i).screen_buf_top

SameLines-refl : (c : Console) → SameLines c c
SameLines-refl c = record { same_display = refl; same_line = λ i. refl; same_top = λ i. refl }

SameLines-trans : (c d e : Console) → SameLines c d → SameLines d e → SameLines c e
SameLines-trans c d e p q = record {
  same_display = q.same_display ∙ p.same_display;
  same_line = λ i. q.same_line i ∙ p.same_line i;
  same_top = λ i. q.same_top i ∙ p.same_top i;
}

put_keeps :
    {A : Type 0} (read : Terminal → A) (n i : ℕ) (term : Terminal) (f : ℕ → Terminal)
    → read term ≡ read (f n)
    → read (put n term f i) ≡ read (f i)
unfolding put
put_keeps read n i term f e =
    if_both (λ t. read t ≡ read (f i)) (i == n) term (f i)
      (λ same. e ∙ ap (λ k. read (f k)) (ground arith)) (λ other. refl)

scroll_up-SameLines : (c : Console) → SameLines c (scroll_up c)
unfolding scroll_up set_terminal
scroll_up-SameLines c = record {
  same_display = refl;
  same_line = λ i. put_keeps (λ t. t.screen_buf) c.terminal_num i _ c.terminal_arr refl;
  same_top = λ i. put_keeps (λ t. t.screen_buf_top) c.terminal_num i _ c.terminal_arr refl;
}

set_terminal-SameLines :
    (c : Console) (n x y : ℕ)
    → SameLines c (set_terminal n (record (c.terminal_arr n) { cursor_x = x; cursor_y = y }) c)
unfolding set_terminal
set_terminal-SameLines c n x y = record {
  same_display = refl;
  same_line = λ i. put_keeps (λ t. t.screen_buf) n i _ c.terminal_arr refl;
  same_top = λ i. put_keeps (λ t. t.screen_buf_top) n i _ c.terminal_arr refl;
}

putc_addr-SameLines : (ch : ℕ) (c : Console) → SameLines c (putc_addr ch c)
unfolding putc_addr
putc_addr-SameLines ch c =
    let display = c.terminal_num_display in
    let term = c.terminal_arr display in
    let next =
      set_terminal display (record term { cursor_x = 0; cursor_y = u8 (term.cursor_y + 1) }) c in
    let wrapped = if term.cursor_x == 80 then next else c in
    let kept =
      if_both (SameLines c) (term.cursor_x == 80) next c
        (λ full. set_terminal-SameLines c display 0 (u8 (term.cursor_y + 1)))
        (λ narrow. SameLines-refl c) in
    let below = leb 25 (wrapped.terminal_arr display).cursor_y in
    let scrolled =
      if_both (SameLines c) below (scroll_up wrapped) wrapped
        (λ low. SameLines-trans c wrapped (scroll_up wrapped) kept (scroll_up-SameLines wrapped))
        (λ high. kept) in
    if_both (SameLines c) ((ch == 10) || (ch == 13)) c _ (λ newline. SameLines-refl c)
      (λ plain. record {
        same_display = scrolled.same_display;
        same_line = scrolled.same_line;
        same_top = scrolled.same_top;
      })

update_cursor-SameLines : (x y : ℕ) (c : Console) → SameLines c (update_cursor x y c)
unfolding update_cursor
update_cursor-SameLines x y c =
    if_both (λ d. (w : List PortWrite) → SameLines c (record d { writes = w }))
      (leb 25 (if leb 80 x then u32 (y + 1) else y)) (scroll_up c) c (λ low w. scrolled w)
      (λ high w. still w) _
  where
    scrolled : (w : List PortWrite) → SameLines c (record (scroll_up c) { writes = w })
    scrolled w =
        let s = scroll_up-SameLines c in
        record { same_display = s.same_display; same_line = s.same_line; same_top = s.same_top }

    still : (w : List PortWrite) → SameLines c (record c { writes = w })
    still w = record { same_display = refl; same_line = λ i. refl; same_top = λ i. refl }

-- A terminal with this line and this top.
abbrev Line : (ℕ → ℕ) → ℕ → Terminal → Type 0
Line line top term = (term.screen_buf_top ≡ top) × (term.screen_buf ≡ line)

shown_after :
    (x y n top : ℕ) (line : ℕ → ℕ) (term : Terminal) (c : Console)
    → c.terminal_num_display ≡ n
    → Line line top term
    → Line line top (shown (update_cursor x y (set_terminal n term c)))
unfolding set_terminal
shown_after x y n top line term c e (tops, lines) =
    let after = update_cursor x y (set_terminal n term c) in
    let same = update_cursor-SameLines x y (set_terminal n term c) in
    let at = same.same_display ∙ e in
    let self = put_self n term c.terminal_arr in
    (
      ap (λ i. (after.terminal_arr i).screen_buf_top) at
          ∙ same.same_top n
          ∙ ap (λ (t : Terminal). t.screen_buf_top) self
          ∙ tops,
      ap (λ i. (after.terminal_arr i).screen_buf) at
          ∙ same.same_line n
          ∙ ap (λ (t : Terminal). t.screen_buf) self
          ∙ lines,
    )

-- What adding a character does to the line of 127 places at most: below 127 it stands at the end, all else in
-- the line as it was, and at 127 nothing happens at all.
pub add2buf_lem :
    (ch : ℕ) (c : Console)
    → ((shown c).screen_buf_top < 127
        → ((shown (add2buf ch c)).screen_buf_top ≡ (shown c).screen_buf_top + 1)
          × ((shown (add2buf ch c)).screen_buf
              ≡ put (shown c).screen_buf_top ch (shown c).screen_buf))
      × (127 ≤ (shown c).screen_buf_top → add2buf ch c ≡ c)
unfolding add2buf
add2buf_lem ch c = (
  (λ room.
      let display = c.terminal_num_display in
      let top = (shown c).screen_buf_top in
      let line = put top ch (shown c).screen_buf in
      let drawn = putc_addr ch c in
      let same = putc_addr-SameLines ch c in
      let term = drawn.terminal_arr display in
      let tops : u8 (term.screen_buf_top + 1) ≡ top + 1 =
        omega (arith, same.same_top display, room) in
      let lines : put term.screen_buf_top ch term.screen_buf ≡ line =
        ap₂ (λ t l. put t ch l) (same.same_top display) (same.same_line display) in
      let added = record term {
        screen_buf = put term.screen_buf_top ch term.screen_buf;
        screen_buf_top = u8 (term.screen_buf_top + 1);
      } in
      let right = record added { cursor_x = u8 (added.cursor_x + 1) } in
      let down = record added { cursor_x = 0; cursor_y = u8 (added.cursor_y + 1) } in
      let moved = if ltb added.cursor_x 79 then right else down in
      if_both (λ d. Line line (top + 1) (shown d)) (ltb top 127)
        (update_cursor moved.cursor_x moved.cursor_y (set_terminal display moved drawn)) c
        (λ open_line.
          shown_after moved.cursor_x moved.cursor_y display (top + 1) line moved drawn
            same.same_display
            (if_both (Line line (top + 1)) (ltb added.cursor_x 79) right down (λ r. (tops, lines))
              (λ d. (tops, lines))))
        (λ closed. absurd (ground arith))),
  λ full.
      if_both (λ d. d ≡ c) (ltb (shown c).screen_buf_top 127) _ c (λ t. absurd (ground arith))
        (λ f. refl),
)

pub delete_char_from_buf_lem :
    (c : Console)
    → (0 < (shown c).screen_buf_top
        → ((shown (delete_char_from_buf c)).screen_buf_top ≡ (shown c).screen_buf_top - 1)
          × ((shown (delete_char_from_buf c)).screen_buf
              ≡ put ((shown c).screen_buf_top - 1) 0 (shown c).screen_buf))
      × ((shown c).screen_buf_top ≡ 0 → delete_char_from_buf c ≡ c)
unfolding delete_char_from_buf
delete_char_from_buf_lem c = (
  (λ room.
      let top = (shown c).screen_buf_top - 1 in
      let line = put top 0 (shown c).screen_buf in
      let term = shown c in
      let shorter = record term { screen_buf_top = top; screen_buf = line } in
      let left = record shorter { cursor_x = term.cursor_x - 1 } in
      let up = record shorter { cursor_x = 79; cursor_y = u8 (term.cursor_y + 255) } in
      let moved = if ltb 0 term.cursor_x then left else up in
      if_both (λ d. Line line top (shown d)) (ltb 0 term.screen_buf_top)
        (update_cursor moved.cursor_x moved.cursor_y (set_terminal c.terminal_num_display moved c))
        c
        (λ some_left.
          shown_after moved.cursor_x moved.cursor_y c.terminal_num_display top line moved c refl (
            if_both (Line line top) (ltb 0 term.cursor_x) left up (λ l. (refl, refl))
              (λ u. (refl, refl))))
        (λ empty. absurd (ground arith))),
  λ none.
      if_both (λ d. d ≡ c) (ltb 0 (shown c).screen_buf_top) _ c (λ t. absurd (ground arith))
        (λ f. refl),
)

-- Deleting undoes adding while the line has room: the length is what it was, and so is every character of the line.
pub delete_char_from_buf-add2buf :
    (ch : ℕ) (c : Console)
    → (shown c).screen_buf_top < 127
    → let after = shown (delete_char_from_buf (add2buf ch c)) in
      (after.screen_buf_top ≡ (shown c).screen_buf_top)
      × ((i : ℕ) → i < (shown c).screen_buf_top → after.screen_buf i ≡ (shown c).screen_buf i)
unfolding put
delete_char_from_buf-add2buf ch c room =
    let (top, line) = (add2buf_lem ch c).0 room in
    let (shorter, cleared) = (delete_char_from_buf_lem (add2buf ch c)).0 (omega (arith, top)) in
    (
      omega (arith, shorter, top),
      λ i below.
          ap (λ (l : ℕ → ℕ). l i) cleared ∙ (ground (arith, top, ap (λ (l : ℕ → ℕ). l i) line)),
    )
