-- ===== src/Terminal/Read.antt =====
-- `terminal_read`: the line up to its end goes to the caller, and the line is emptied.
use judd_os.Prelude.{
  subst, Bool-cases, ℕ, zero, suc, inl, inr, ◌+◌, ◌-◌, ◌^◌, ◌<◌, ◌≡◌, ◌∙◌, ◌⊎◌, refl, sym, ap, ap₂,
  fun_ext, arith, if◌then◌else◌, ◌==◌, leb, ltb, ◌||◌, ◌&&◌, Bool, true, false,
}
use judd_os.Prelude.Memory.{Memory, store}
use judd_os.Prelude.Word.{is_negative}
use judd_os.Paging.{put}
use judd_os.Terminal.{Terminal, Console, read_line, clearbuf, set_terminal, terminal_read}
use judd_os.Terminal.Screen.{if_both, put_self}

abbrev pub ends : ℕ → Bool
ends ch = (ch == 10) || (ch == 13)

-- The first `k` bytes of the line do not end it.
abbrev pub Running : (ℕ → ℕ) → ℕ → Type 0
Running line k = (j : ℕ) → j < k → ends (line j) ≡ false

abbrev pub lined : Memory → ℕ → (ℕ → ℕ) → ℕ → ℕ → Memory
lined m buf line i n x = if leb (buf + i) x && ltb x (buf + i + n) then line (x - buf) else m x

lined_step :
    (m : Memory) (buf : ℕ) (line : ℕ → ℕ) (i n : ℕ)
    → lined (store m (buf + i) (line i)) buf line (i + 1) n ≡ lined m buf line i (suc n)
unfolding store
lined_step m buf line i n = fun_ext λ x. elim (Bool-cases (x == buf + i)) [
  | inl here ↦ (let at : x - buf ≡ i = ground arith in ground (arith, ap line at))
  | inr elsewhere ↦ ground arith
]

read_line_full :
    (left i buf : ℕ) (line : ℕ → ℕ) (m : Memory)
    → ((j : ℕ) → j < left → ends (line (i + j)) ≡ false)
    → read_line left i buf line m ≡ (i + left, lined m buf line i left)
unfolding read_line
read_line_full zero i buf line m before =
    ap₂ (λ a b. (a, b)) (omega arith) (fun_ext λ x. ground arith)
read_line_full (suc left) i buf line m before =
    let more : ends (line i) ≡ false = ground (arith, before 0) in
    rw more (
      read_line_full left (i + 1) buf line (store m (buf + i) (line i))
        (λ j h. ground (arith, before (suc j)))
      ∙ ap₂ (λ a b. (a, b)) (omega arith) (lined_step m buf line i left))

read_line_ended :
    (left k i buf : ℕ) (line : ℕ → ℕ) (m : Memory)
    → ((j : ℕ) → j < k → ends (line (i + j)) ≡ false)
    → ends (line (i + k)) ≡ true
    → k < left
    → read_line left i buf line m ≡ (i + suc k, lined m buf line i (suc k))
unfolding read_line
read_line_ended zero k i buf line m before at le = absurd (omega (arith, le))
read_line_ended (suc left) zero i buf line m before at le =
    let end : ends (line i) ≡ true = ground (arith, at) in
    rw end
      (ap₂ (λ a b. (a, b)) (omega arith) ((fun_ext λ x. ground arith) ∙ lined_step m buf line i 0))
read_line_ended (suc left) (suc k) i buf line m before at le =
    let more : ends (line i) ≡ false = ground (arith, before 0) in
    rw more (
      read_line_ended left k (i + 1) buf line (store m (buf + i) (line i))
        (λ j h. ground (arith, before (suc j))) (ground (arith, at)) (omega (arith, le))
      ∙ ap₂ (λ a b. (a, b)) (omega arith) (lined_step m buf line i (suc k)))

read_line_lem :
    (limit k buf : ℕ) (line : ℕ → ℕ) (m : Memory)
    → Running line k
    → (k ≡ limit) ⊎ ((k < limit) × (ends (line k) ≡ true))
    → let n = if k == limit then k else k + 1 in
      read_line limit 0 buf line m ≡ (n, lined m buf line 0 n)
read_line_lem limit k buf line m running (inl same) =
    let n : (if k == limit then k else k + 1) ≡ limit = ground arith in
    read_line_full limit 0 buf line m (λ j h. ground (arith, running j (omega (arith, same, h))))
    ∙ ap₂ (λ a b. (a, lined m buf line 0 b)) (omega (arith, n)) (sym n)
read_line_lem limit k buf line m running (inr (below, end)) =
    let n : (if k == limit then k else k + 1) ≡ suc k = ground arith in
    read_line_ended limit k 0 buf line m (λ j h. ground (arith, running j h)) (ground (arith, end))
      below
    ∙ ap₂ (λ a b. (a, lined m buf line 0 b)) (omega (arith, n)) (sym n)

abbrev pub line_of : Console → ℕ → ℕ
line_of c = (c.terminal_arr c.terminal_num_display).screen_buf

-- The state in which the wait begins.
abbrev pub waiting : Console → Console
waiting c =
    set_terminal c.terminal_num_display
      (record (c.terminal_arr c.terminal_num_display) { screen_buf = put 127 13 (line_of c) }) c

-- With a buffer that is not null and a count that is not negative, `terminal_read` returns, for the line of
-- the state that the wait ends in, the number of bytes up to the first newline or return, itself included, or else the
-- count, 128 at most; it writes just that many bytes of the line to the buffer, and leaves the line empty and
-- `enter_flag` at 0.
pub terminal_read_lem :
    (wait : Console → Console) (buf nbytes k : ℕ) (c : Console)
    → 0 < buf
    → nbytes < 2 ^ 31
    → Running (line_of (wait (waiting c))) k
    → let limit = if ltb 128 nbytes then 128 else nbytes in
      (k ≡ limit) ⊎ ((k < limit) × (ends (line_of (wait (waiting c)) k) ≡ true))
      → let n = if k == limit then k else k + 1 in
        let after = terminal_read wait buf nbytes c in
        (after.0 ≡ n)
        × (after.1.mem ≡ lined (wait (waiting c)).mem buf (line_of (wait (waiting c))) 0 n)
        × ((after.1.terminal_arr after.1.terminal_num_display).screen_buf_top ≡ 0)
        × ((i : ℕ) → i < 128 → line_of after.1 i ≡ 0)
        × (after.1.flags.enter_flag ≡ 0)
unfolding terminal_read clearbuf set_terminal
terminal_read_lem wait buf nbytes k c some_buf small running stop =
    let woken = wait (waiting c) in
    let line = line_of woken in
    let limit = if ltb 128 nbytes then 128 else nbytes in
    let n = if k == limit then k else k + 1 in
    let Good : ℕ × Console → Type 0 = (λ after.
      (after.0 ≡ n)
      × (after.1.mem ≡ lined woken.mem buf line 0 n)
      × ((after.1.terminal_arr after.1.terminal_num_display).screen_buf_top ≡ 0)
      × ((i : ℕ) → i < 128 → line_of after.1 i ≡ 0)
      × (after.1.flags.enter_flag ≡ 0)) in
    let finish : ℕ × Memory → ℕ × Console = (λ r. (
      r.0,
      clearbuf (record woken { mem = r.1; flags = record woken.flags { enter_flag = 0 } }),
    )) in
    let empty = put_self woken.terminal_num_display _ woken.terminal_arr in
    if_both Good ((buf == 0) || is_negative nbytes) _
      (finish (read_line limit 0 buf line woken.mem)) (λ bad. absurd (ground arith))
      (λ good.
        subst (λ r. Good (finish r)) (sym (read_line_lem limit k buf line woken.mem running stop))
          (
            refl,
            refl,
            ap (λ (t : Terminal). t.screen_buf_top) empty,
            (λ i h. ap (λ (t : Terminal). t.screen_buf i) empty ∙ (ground arith)),
            refl,
          ))
