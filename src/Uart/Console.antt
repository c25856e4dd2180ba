-- ===== src/Uart/Console.antt =====
-- `uart_debug_read`: the line editor of the debug console.
use esp32base.Base.{
  drop-set, ℕ, zero, suc, ◌+◌, ◌-◌, ◌≤◌, ◌<◌, ◌≡◌, refl, ap, sym, ◌∙◌, Bool-cases, inl, inr, true,
  false, some, List, [], ◌∷◌, ◌++◌, append-nil, append_assoc, arith, ◌==◌, ltb, leb, if◌then◌else◌,
  length, length-set, length-append, length-take, set, take, drop, All, take-set, take-set_end,
  take-take, take-append-drop, get_or, set-append_length, until_nul,
}
use esp32base.MiniData.{find_byte}
use esp32base.Uart.{DebugLine, limit, accepted, put_char, put_chars, run_line, uart_debug_read}

-- the characters held
abbrev pub held : DebugLine → List ℕ
held s = take s.len s.cmdline

-- What a user expects of a key: 0x7F deletes the last character, an accepted character is appended.
abbrev pub edit : List ℕ → ℕ → List ℕ
edit line c =
    if accepted c then (if c == 0x7f then take (length line - 1) line else line ++ c ∷ []) else line

-- The keys up to an escape.
unfoldable pub typed : List ℕ → List ℕ → List ℕ
typed line [] = line
typed line (c ∷ buf) = let rest = typed (edit line c) buf in if c == 0x1b then line else rest

-- what one round keeps: it moves the length by at most one, and stays in the array
record Keeps (s s' : DebugLine) (line : List ℕ) : Type 0 where
  size : length s'.cmdline ≡ length s.cmdline
  grows : s'.len ≤ s.len + 1
  line_is : held s' ≡ line

backspace : DebugLine → DebugLine
backspace s =
    if ltb 0 s.len then record s { len = s.len - 1; cmdline = set s.cmdline (s.len - 1) 0 } else s

backspace-Keeps :
    (s : DebugLine)
    → s.len < length s.cmdline
    → Keeps s (backspace s) (take (length (held s) - 1) (held s))
unfolding backspace
backspace-Keeps s h =
    let size = length-take s.len s.cmdline (omega arith) in
    elim (Bool-cases (ltb 0 s.len)) [
      | inl pos ↦
          rw (pos, size)
            (record {
              size = length-set s.cmdline (s.len - 1) 0;
              grows = omega arith;
              line_is =
                  take-set (s.len - 1) s.cmdline (s.len - 1) 0 (omega arith)
                  ∙ sym (take-take (s.len - 1) s.len s.cmdline (omega arith));
            })
      | inr empty ↦
          let none_held : s.len ≡ 0 = ground arith in
          let nothing : held s ≡ [] = ap (λ n. take n s.cmdline) none_held in
          rw (empty, size)
            (record {
              size = refl;
              grows = omega arith;
              line_is = nothing ∙ sym (ap (λ n. take (n - 1) (held s)) none_held);
            })
    ]

append-Keeps :
    (s : DebugLine) (c : ℕ)
    → s.len < length s.cmdline
    → Keeps s (record s { cmdline = set s.cmdline s.len c; len = s.len + 1 }) (held s ++ c ∷ [])
append-Keeps s c h =
    let next : s.len + 1 ≡ suc s.len = omega arith in
    record {
      size = length-set s.cmdline s.len c;
      grows = omega arith;
      line_is = ap (λ n. take n (set s.cmdline s.len c)) next ∙ take-set_end s.len s.cmdline c h;
    }

put_char-edit :
    (s : DebugLine) (c : ℕ) → s.len < length s.cmdline → Keeps s (put_char s c) (edit (held s) c)
unfolding put_char backspace
put_char-edit s c h = elim (Bool-cases (accepted c)) [
  | inl take_it ↦ elim (Bool-cases (c == 0x7f)) [
    | inl delete ↦ rw (take_it, delete) (backspace-Keeps s h)
    | inr append ↦ rw (take_it, append) (append-Keeps s c h)
  ]
  | inr drop_it ↦ rw drop_it (record { size = refl; grows = omega arith; line_is = refl })
]

-- While the line has room for all of them, the keys of a call edit the line held as a user expects,
-- up to an escape, and the array keeps its size.
pub put_chars-typed :
    (s : DebugLine) (buf : List ℕ)
    → s.len + length buf ≤ length s.cmdline
    → (held (put_chars s buf) ≡ typed (held s) buf)
      × (length (put_chars s buf).cmdline ≡ length s.cmdline)
      × ((put_chars s buf).len ≤ s.len + length buf)
unfolding put_chars typed
put_chars-typed s [] h = (refl, refl, omega arith)
put_chars-typed s (c ∷ buf) h = elim (Bool-cases (c == 0x1b)) [
  | inl escape ↦ rw escape (refl, refl, omega arith)
  | inr key ↦
      let one = put_char-edit s c (omega arith) in
      let (line, size, len) =
        put_chars-typed (put_char s c) buf (omega (arith, one.size, one.grows)) in
      rw key (line ∙ ap (λ l. typed l buf) one.line_is, size ∙ one.size, omega (arith, one.grows))
]

put_char-behind :
    (s : DebugLine) (c n : ℕ)
    → s.len < n
    → (drop n (put_char s c).cmdline ≡ drop n s.cmdline) × ((put_char s c).len ≤ s.len + 1)
unfolding put_char
put_char-behind s c n h = elim (Bool-cases (accepted c)) [
  | inl take_it ↦ elim (Bool-cases (c == 0x7f)) [
    | inl delete ↦ elim (Bool-cases (ltb 0 s.len)) [
      | inl some_char ↦
          rw (take_it, delete, some_char)
            (drop-set n s.cmdline (s.len - 1) 0 (omega arith), omega arith)
      | inr empty ↦ rw (take_it, delete, empty) (refl, omega arith)
    ]
    | inr append ↦ rw (take_it, append) (drop-set n s.cmdline s.len c h, omega arith)
  ]
  | inr drop_it ↦ rw drop_it (refl, omega arith)
]

-- what stands in the array behind all that a call can write stays
pub put_chars-behind :
    (s : DebugLine) (buf : List ℕ) (n : ℕ)
    → s.len + length buf ≤ n
    → drop n (put_chars s buf).cmdline ≡ drop n s.cmdline
unfolding put_chars
put_chars-behind s [] n h = refl
put_chars-behind s (c ∷ buf) n h =
    let (same, len) = put_char-behind s c n (omega arith) in
    elim (Bool-cases (c == 0x1b)) [
      | inl escape ↦ rw escape refl
      | inr key ↦ rw key (put_chars-behind (put_char s c) buf n (omega arith) ∙ same)
    ]

-- a character that stands for itself: printable ASCII
abbrev pub IsPrintable : ℕ → Type 0
IsPrintable c = (32 ≤ c) × (c < 127)

pub typed-append :
    (line keys rest : List ℕ)
    → All IsPrintable keys
    → typed line (keys ++ rest) ≡ typed (line ++ keys) rest
unfolding typed
typed-append line [] rest h = rw (append-nil line)
typed-append line (c ∷ keys) rest h =
    let (low, high) = h.0 in
    let no_escape : (c == 0x1b) ≡ false = ground arith in
    let step : edit line c ≡ line ++ c ∷ [] = ground arith in
    rw (
      no_escape,
      step,
      typed-append (line ++ c ∷ []) keys rest h.1,
      append_assoc line (c ∷ []) keys,
    )

pub typed-enter : (line : List ℕ) → typed line (0x0d ∷ []) ≡ line ++ 0x0d ∷ []
unfolding typed
typed-enter line = refl

pub find_byte-line :
    (line rest : List ℕ) (n : ℕ)
    → All IsPrintable line
    → length line < n
    → find_byte 0x0d (line ++ 0x0d ∷ rest) n ≡ length line
unfolding find_byte
find_byte-line line rest zero h k = absurd (omega arith)
find_byte-line [] rest (suc n) h k = refl
find_byte-line (c ∷ line) rest (suc n) h k = ground (arith, find_byte-line line rest n h.1)

until_nul-line : (line rest : List ℕ) → All IsPrintable line → until_nul (line ++ 0 ∷ rest) ≡ line
unfolding until_nul
until_nul-line [] rest h = refl
until_nul-line (c ∷ line) rest h = ground (arith, until_nul-line line rest h.1)

starts_nonzero :
    (line rest : List ℕ)
    → All IsPrintable line
    → 0 < length line
    → (get_or (line ++ 0 ∷ rest) 0 0 == 0) ≡ false
starts_nonzero [] rest h k = absurd (omega arith)
starts_nonzero (c ∷ line) rest h k = ground arith

pub run_line-enter :
    (t : DebugLine) (line rest : List ℕ)
    → t.cmdline ≡ line ++ 0x0d ∷ rest
    → All IsPrintable line
    → 0 < length line
    → length line < t.len
    → ((run_line t).1 ≡ some (line ++ 0 ∷ rest)) × ((run_line t).0.len ≡ 0)
unfolding run_line
run_line-enter t line rest e h some_key k =
    let at : find_byte 0x0d t.cmdline t.len ≡ length line =
      rw e (find_byte-line line rest t.len h k) in
    let enter : ltb (length line) t.len ≡ true = ground arith in
    let cut : set t.cmdline (length line) 0 ≡ line ++ 0 ∷ rest =
      rw e (set-append_length line rest 0x0d 0) in
    rw (at, enter, cut, starts_nonzero line rest h some_key) (refl, refl)

-- A line of 1 to 254 printable characters, typed at an empty prompt and ended by a carriage return,
-- is run as a command exactly as typed, with what the array held behind it, and the prompt is empty
-- again.
pub uart_debug_read-line :
    (s : DebugLine) (line : List ℕ)
    → length s.cmdline ≡ 255
    → s.len ≡ 0
    → All IsPrintable line
    → 0 < length line
    → length line ≤ 254
    → ((uart_debug_read s (line ++ 0x0d ∷ [])).1
        ≡ some (line ++ 0 ∷ drop (length line + 1) s.cmdline))
      × ((uart_debug_read s (line ++ 0x0d ∷ [])).0.len ≡ 0)
unfolding uart_debug_read limit
uart_debug_read-line s line size start h some_key k =
    let keys = line ++ 0x0d ∷ [] in
    let room : leb 255 s.len ≡ false = ground arith in
    let n = length-append line (0x0d ∷ []) in
    let t = put_chars s keys in
    let (is_typed, t_size, t_len) = put_chars-typed s keys (omega arith) in
    let at_start : held s ≡ [] = ap (λ n. take n s.cmdline) start in
    let line_held : held t ≡ keys =
      is_typed
      ∙ ap (λ l. typed l keys) at_start
      ∙ typed-append [] line (0x0d ∷ []) h
      ∙ typed-enter line in
    let len : length keys ≡ t.len =
      sym (ap length line_held) ∙ length-take t.len t.cmdline (omega arith) in
    let whole : t.cmdline ≡ line ++ 0x0d ∷ drop t.len t.cmdline =
      sym (take-append-drop t.len t.cmdline)
      ∙ ap (λ l. l ++ drop t.len t.cmdline) line_held
      ∙ append_assoc line (0x0d ∷ []) (drop t.len t.cmdline) in
    let last : t.len ≡ length line + 1 = omega arith in
    let old : drop t.len t.cmdline ≡ drop (length line + 1) s.cmdline =
      ap (λ n. drop n t.cmdline) last ∙ put_chars-behind s keys (length line + 1) (omega arith) in
    let (done, empty) =
      run_line-enter t line (drop t.len t.cmdline) whole h some_key (omega arith) in
    rw room (done ∙ ap (λ r. some (line ++ 0 ∷ r)) old, empty)
