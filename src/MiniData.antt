-- ===== src/MiniData.antt =====
-- components/hxkong_yun/mini-data.c and include/mini-data.h: the frame format between the modules,
-- 0xAF, the length (one byte, or 0xFF and two bytes, low byte first), the parameter, 0xFA.
-- A buffer is the list of its bytes; a pointer into `cache` is its index.
pub mod Laws
pub mod RoundTrip
use esp32base.Base.{
  ℕ, zero, suc, ◌+◌, ◌*◌, ◌/◌, ◌%◌, Bool, true, false, List, [], ◌∷◌, ◌++◌, ◌==◌, ltb,
  if◌then◌else◌, get_or, take, drop,
}

-- `TzhMiniData`
pub record MiniData : Type 0 where
  pub head : ℕ
  pub parameter_len : ℕ
  pub parameter : ℕ
  pub end : ℕ
  pub frame_head : ℕ
  pub frame_len : ℕ

-- the length field that `miniDataCreate` writes; `& 0xFF` and `(& 0xFF00) >> 8` in arithmetic form
unfoldable pub length_field : ℕ → List ℕ
length_field parm_len =
    if ltb parm_len 0xff then parm_len ∷ [] else 0xff ∷ parm_len % 256 ∷ parm_len / 256 % 256 ∷ []

-- `miniDataCreate`: the bytes written to `dst_buf`, whose number is the result. `parm_len` is an
-- `unsigned char`: its callers reduce what they pass.
unfoldable pub create : ℕ → List ℕ → List ℕ
unfolding length_field
create parm_len parm =
    if parm_len == 0 then [] else 0xaf ∷ length_field parm_len ++ (take parm_len parm ++ 0xfa ∷ [])

-- the scan for the head byte: its index, or `cache_len` (the list holds the whole array)
unfoldable pub find_byte : ℕ → List ℕ → ℕ → ℕ
find_byte b cache zero = 0
find_byte b [] (suc n) = suc n
find_byte b (x ∷ xs) (suc n) = if x == b then 0 else suc (find_byte b xs n)

-- `cache[n+1] | cache[n+2] << 8` of two bytes
abbrev pub le16 : ℕ → ℕ → ℕ
le16 lo hi = lo + 256 * hi

-- what `miniDataGet` returns: the result, `*is_get_cmd_success`, `*pcmd`
abbrev pub Got : Type 0
Got = ℕ × Bool × MiniData

-- from the test of the length on: parameter, end byte; `n` is where the parameter begins
unfoldable pub get_parameter : List ℕ → ℕ → ℕ → ℕ → MiniData → Got
get_parameter cache cache_len n tmp_frame_base pcmd =
    if pcmd.parameter_len == 0
    then (1, false, pcmd)
    else if ltb cache_len (pcmd.parameter_len + tmp_frame_base)
    then (0, false, pcmd)
    else if get_or cache (n + pcmd.parameter_len) 0 == 0xfa
    then (
      n + pcmd.parameter_len + 1,
      true,
      record pcmd { parameter = n; end = 0xfa; frame_len = n + pcmd.parameter_len + 1 },
    )
    else (1, false, record pcmd { parameter = n })

-- from `pcmd->head=0xAF` on, the head byte being at index 0
unfoldable pub get_frame : List ℕ → ℕ → MiniData → Got
get_frame cache cache_len pcmd =
    if get_or cache 1 0 == 0xff
    then get_parameter cache cache_len 4 5
        (record pcmd { head = 0xaf; parameter_len = le16 (get_or cache 2 0) (get_or cache 3 0) })
    else get_parameter cache cache_len 2 3
        (record pcmd { head = 0xaf; parameter_len = get_or cache 1 0 })

-- `miniDataGet`
unfoldable pub get : List ℕ → ℕ → MiniData → Got
get cache cache_len pcmd =
    if ltb cache_len 3
    then (0, false, pcmd)
    else let n = find_byte 0xaf cache cache_len in
      let pcmd' = if ltb n cache_len then record pcmd { frame_head = n } else pcmd in
      if ltb 0 n then (n, false, pcmd') else get_frame cache cache_len pcmd'
