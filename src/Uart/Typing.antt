-- ===== src/Uart/Typing.antt =====
-- A line typed at the debug console, in the pieces in which the driver reads it.
use esp32base.Base.{
  ℕ, ◌+◌, ◌≤◌, ◌<◌, ◌≡◌, refl, ap, sym, ◌∙◌, true, false, none, some, List, [], ◌∷◌, ◌++◌,
  append-nil, append_assoc, arith, ◌==◌, ltb, leb, length, length-append, length-take, take, drop,
  All, All-append, concat, take-append-drop, get_or, subst,
}
use esp32base.MiniData.{find_byte}
use esp32base.Config.{Flash}
use esp32base.Command.{Action, do_command}
use esp32base.Uart.{DebugLine, limit, put_chars, run_line, uart_debug_read}
use esp32base.Uart.Console.{
  held, typed, put_chars-typed, put_chars-behind, put_chars-behind, IsPrintable, typed-append,
  typed-enter, run_line-enter,
}
use esp32base.Uart.Driver.{run_command, debug_round, task_uart_debug}

-- a line that is being typed: these characters are held, in the array of 255 bytes, which had these
-- contents at first
pub record IsTyping (mem : List ℕ) (s : DebugLine) (text : List ℕ) : Type 0 where
  pub size : length s.cmdline ≡ 255
  pub holds : held s ≡ text
  pub len_is : s.len ≡ length text
  pub printable : All IsPrintable text
  pub rest : (n : ℕ) → length text ≤ n → drop n s.cmdline ≡ drop n mem

typed-printable : (line keys : List ℕ) → All IsPrintable keys → typed line keys ≡ line ++ keys
unfolding typed
typed-printable line keys h = ap (typed line) (sym (append-nil keys)) ∙ typed-append line keys [] h

-- the array begins with the characters held
array-held :
    (s : DebugLine) (text : List ℕ) → held s ≡ text → s.cmdline ≡ text ++ drop s.len s.cmdline
array-held s text h = sym (take-append-drop s.len s.cmdline) ∙ ap (λ l. l ++ drop s.len s.cmdline) h

-- no carriage return among printable characters
find_byte-none :
    (text rest : List ℕ)
    → All IsPrintable text
    → find_byte 0x0d (text ++ rest) (length text) ≡ length text
unfolding find_byte
find_byte-none [] rest h = refl
find_byte-none (c ∷ text) rest h = ground (arith, find_byte-none text rest h.1)

first_nonzero :
    (text rest : List ℕ)
    → All IsPrintable text
    → 0 < length text
    → (get_or (text ++ rest) 0 0 == 0) ≡ false
first_nonzero [] rest h k = absurd (omega arith)
first_nonzero (c ∷ text) rest h k = ground arith

put_chars-IsTyping :
    (mem : List ℕ) (s : DebugLine) (text keys : List ℕ)
    → IsTyping mem s text
    → All IsPrintable keys
    → length text + length keys ≤ 254
    → IsTyping mem (put_chars s keys) (text ++ keys)
put_chars-IsTyping mem s text keys v h fits =
    let (is_typed, size, len) = put_chars-typed s keys (omega (arith, v.size, v.len_is)) in
    let now : held (put_chars s keys) ≡ text ++ keys =
      is_typed ∙ typed-printable (held s) keys h ∙ ap (λ t. t ++ keys) v.holds in
    record {
      size = size ∙ v.size;
      holds = now;
      len_is =
          sym (
            length-take (put_chars s keys).len (put_chars s keys).cmdline
              (omega (arith, len, size, v.size, v.len_is)))
          ∙ ap length now;
      printable = All-append IsPrintable text keys v.printable h;
      rest = λ n k.
          put_chars-behind s keys n (omega (arith, v.len_is, length-append text keys))
          ∙ v.rest n (omega (arith, length-append text keys));
    }

run_line-IsTyping :
    (mem : List ℕ) (s : DebugLine) (text : List ℕ)
    → IsTyping mem s text
    → 0 < length text
    → run_line s ≡ (s, none)
unfolding run_line
run_line-IsTyping mem s text v some_key =
    let whole = array-held s text v.holds in
    let at : find_byte 0x0d s.cmdline s.len ≡ s.len =
      ap (λ l. find_byte 0x0d l s.len) whole
      ∙ ap (λ n. find_byte 0x0d (text ++ drop s.len s.cmdline) n) v.len_is
      ∙ find_byte-none text (drop s.len s.cmdline) v.printable
      ∙ sym v.len_is in
    let no_enter : ltb s.len s.len ≡ false = ground arith in
    let some_char : (get_or s.cmdline 0 0 == 0) ≡ false =
      ap (λ l. get_or l 0 0 == 0) whole
      ∙ first_nonzero text (drop s.len s.cmdline) v.printable some_key in
    rw (at, no_enter, some_char) refl

read-IsTyping :
    (mem : List ℕ) (s : DebugLine) (text keys : List ℕ)
    → IsTyping mem s text
    → All IsPrintable keys
    → 0 < length keys
    → length text + length keys ≤ 254
    → (uart_debug_read s keys ≡ (put_chars s keys, none))
      × IsTyping mem (put_chars s keys) (text ++ keys)
unfolding uart_debug_read limit
read-IsTyping mem s text keys v h some_key fits =
    let room : leb 255 s.len ≡ false = ground (arith, v.len_is) in
    let now = put_chars-IsTyping mem s text keys v h fits in
    let some_text : 0 < length (text ++ keys) = omega (arith, length-append text keys) in
    (rw room (run_line-IsTyping mem (put_chars s keys) (text ++ keys) now some_text), now)

read-enter :
    (mem : List ℕ) (s : DebugLine) (text keys : List ℕ)
    → IsTyping mem s text
    → All IsPrintable keys
    → 0 < length (text ++ keys)
    → length text + length keys ≤ 254
    → ((uart_debug_read s (keys ++ 0x0d ∷ [])).1
        ≡ some ((text ++ keys) ++ 0 ∷ drop (length (text ++ keys) + 1) mem))
      × ((uart_debug_read s (keys ++ 0x0d ∷ [])).0.len ≡ 0)
unfolding uart_debug_read limit
read-enter mem s text keys v h some_key fits =
    let all_keys = keys ++ 0x0d ∷ [] in
    let line = text ++ keys in
    let room : leb 255 s.len ≡ false = ground (arith, v.len_is) in
    let n = length-append keys (0x0d ∷ []) in
    let m = length-append line (0x0d ∷ []) in
    let t = put_chars s all_keys in
    let (is_typed, t_size, t_len) = put_chars-typed s all_keys (omega (arith, v.size, v.len_is)) in
    let line_held : held t ≡ line ++ 0x0d ∷ [] =
      is_typed
      ∙ typed-append (held s) keys (0x0d ∷ []) h
      ∙ typed-enter (held s ++ keys)
      ∙ ap (λ l. (l ++ keys) ++ 0x0d ∷ []) v.holds in
    let len : length (line ++ 0x0d ∷ []) ≡ t.len =
      sym (ap length line_held) ∙ length-take t.len t.cmdline (omega (arith, v.size, v.len_is)) in
    let whole : t.cmdline ≡ line ++ 0x0d ∷ drop t.len t.cmdline =
      array-held t (line ++ 0x0d ∷ []) line_held
      ∙ append_assoc line (0x0d ∷ []) (drop t.len t.cmdline) in
    let last : t.len ≡ length line + 1 = omega arith in
    let old : drop t.len t.cmdline ≡ drop (length line + 1) mem =
      ap (λ k. drop k t.cmdline) last
      ∙ put_chars-behind s all_keys (length line + 1)
          (omega (arith, v.len_is, length-append text keys))
      ∙ v.rest (length line + 1) (omega (arith, length-append text keys)) in
    let (done, empty) =
      run_line-enter t line (drop t.len t.cmdline) whole
        (All-append IsPrintable text keys v.printable h) some_key (omega arith) in
    rw room (done ∙ ap (λ r. some (line ++ 0 ∷ r)) old, empty)

-- the memory that a command is run on: the line, and behind its NUL what the array held before
abbrev pub command_in : List ℕ → List ℕ → List ℕ
command_in mem text = text ++ 0 ∷ drop (length text + 1) mem

module _ {S : Type 0} (flash : Flash S) where
  -- a read that times out, and one of printable characters, run no command
  debug_round-IsTyping :
      (mem : List ℕ) (line : DebugLine) (s : S) (text buf : List ℕ)
      → IsTyping mem line text
      → All IsPrintable buf
      → length text + length buf ≤ 254
      → (line' : DebugLine) × (debug_round flash line s buf ≡ some ((line', s), []))
        × IsTyping mem line' (text ++ buf)
  unfolding debug_round run_command
  debug_round-IsTyping mem line s text [] v h fits =
      (line, refl, subst (IsTyping mem line) (sym (append-nil text)) v)
  debug_round-IsTyping mem line s text (c ∷ buf) v h fits =
      let (e, now) = read-IsTyping mem line text (c ∷ buf) v h (omega arith) fits in
      let some_read : ltb 0 (length (c ∷ buf)) ≡ true = ground arith in
      (put_chars line (c ∷ buf), rw (some_read, e) refl, now)

  debug_round-enter :
      (mem : List ℕ) (line : DebugLine) (s s' : S) (text buf : List ℕ) (did : List Action)
      → IsTyping mem line text
      → All IsPrintable buf
      → 0 < length (text ++ buf)
      → length text + length buf ≤ 254
      → do_command flash (command_in mem (text ++ buf)) s ≡ some (s', did)
      → (line' : DebugLine) × (debug_round flash line s (buf ++ 0x0d ∷ [])
          ≡ some ((line', s'), did))
        × (line'.len ≡ 0)
  unfolding debug_round run_command
  debug_round-enter mem line s s' text buf did v h some_key fits done =
      let (e, empty) = read-enter mem line text buf v h some_key fits in
      let some_read : ltb 0 (length (buf ++ 0x0d ∷ [])) ≡ true =
        ground (arith, length-append buf (0x0d ∷ [])) in
      ((uart_debug_read line (buf ++ 0x0d ∷ [])).0, rw (some_read, e, done) refl, empty)

  then_task :
      (line line1 line2 : DebugLine) (s s1 s2 : S) (buf : List ℕ) (reads : List (List ℕ))
      (did more : List Action)
      → debug_round flash line s buf ≡ some ((line1, s1), did)
      → task_uart_debug flash line1 s1 reads ≡ some ((line2, s2), more)
      → task_uart_debug flash line s (buf ∷ reads) ≡ some ((line2, s2), did ++ more)
  unfolding task_uart_debug
  then_task line line1 line2 s s1 s2 buf reads did more now later = rw (now, later) refl

  task-IsTyping :
      (mem : List ℕ) (line : DebugLine) (s s' : S) (text : List ℕ) (reads : List (List ℕ))
      (buf : List ℕ) (did : List Action)
      → IsTyping mem line text
      → All (All IsPrintable) reads
      → All IsPrintable buf
      → 0 < length (text ++ (concat reads ++ buf))
      → length (text ++ (concat reads ++ buf)) ≤ 254
      → do_command flash (command_in mem (text ++ (concat reads ++ buf))) s ≡ some (s', did)
      → (line' : DebugLine) × (task_uart_debug flash line s (reads ++ (buf ++ 0x0d ∷ []) ∷ [])
          ≡ some ((line', s'), did))
        × (line'.len ≡ 0)
  task-IsTyping mem line s s' text [] buf did v h k some_key fits done =
      let (line', e, empty) =
        debug_round-enter mem line s s' text buf did v k some_key
          (omega (arith, fits, length-append text buf)) done in
      (
        line',
        then_task line line' line' s s' s' (buf ++ 0x0d ∷ []) [] did [] e
              (unfold task_uart_debug in refl)
            ∙ ap (λ t. some ((line', s'), t)) (append-nil did),
        empty,
      )
  task-IsTyping mem line s s' text (r ∷ reads) buf did v h k some_key fits done =
      let regroup : (text ++ r) ++ (concat reads ++ buf) ≡ text ++ ((r ++ concat reads) ++ buf) =
        append_assoc text r (concat reads ++ buf)
        ∙ ap (λ t. text ++ t) (sym (append_assoc r (concat reads) buf)) in
      let size = length-append (text ++ r) (concat reads ++ buf) in
      let (line1, now, v1) =
        debug_round-IsTyping mem line s text r v h.0
          (omega (arith, fits, ap length regroup, size, length-append text r)) in
      let (line', later, empty) =
        task-IsTyping mem line1 s s' (text ++ r) reads buf did v1 h.1 k
          (subst (λ t. 0 < length t) (sym regroup) some_key)
          (subst (λ t. length t ≤ 254) (sym regroup) fits)
          (ap (λ t. do_command flash (command_in mem t) s) regroup ∙ done) in
      (
        line',
        then_task line line1 line' s s s' r (reads ++ (buf ++ 0x0d ∷ []) ∷ []) [] did now later,
        empty,
      )

  -- A line of 1 to 254 printable characters, typed at an empty prompt and ended by a carriage return,
  -- which the driver reads in any pieces, with any number of reads that time out: the task runs exactly
  -- the command typed, once, where that does not fault, and the prompt is empty again. What the command
  -- can read is the line, its NUL, and behind it what the array held there before.
  pub task_uart_debug-line :
      (line : DebugLine) (s s' : S) (reads : List (List ℕ)) (buf : List ℕ) (did : List Action)
      → length line.cmdline ≡ 255
      → line.len ≡ 0
      → All (All IsPrintable) reads
      → All IsPrintable buf
      → 0 < length (concat reads ++ buf)
      → length (concat reads ++ buf) ≤ 254
      → do_command flash (command_in line.cmdline (concat reads ++ buf)) s ≡ some (s', did)
      → (line' : DebugLine) × (task_uart_debug flash line s (reads ++ (buf ++ 0x0d ∷ []) ∷ [])
          ≡ some ((line', s'), did))
        × (line'.len ≡ 0)
  task_uart_debug-line line s s' reads buf did size empty h k some_key fits done =
      let start : IsTyping line.cmdline line [] = record {
        size = size;
        holds = ap (λ n. take n line.cmdline) empty;
        len_is = empty;
        printable = tt;
        rest = λ n k. refl;
      } in
      task-IsTyping line.cmdline line s s' [] reads buf did start h k some_key fits done
