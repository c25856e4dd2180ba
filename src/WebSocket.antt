-- ===== src/WebSocket.antt =====
-- components/websocket/websocket.c and include/websocket.h: the two framings (the old one of Safari
-- and RFC 6455), and their receive scan. Its handshake is in `WebSocket.Handshake`, its strings in
-- `Text`; the server over it, websocket_serv.c, is `WebSocket.Serv`.
pub mod Xor
pub mod Old
pub mod Rfc
pub mod Scan
pub mod Handshake
pub mod Serv
use esp32base.Base.{
  ℕ, zero, suc, ◌+◌, ◌-◌, ◌*◌, ◌/◌, ◌%◌, ◌^◌, Bool, true, false, Option, none, some, List, [], ◌∷◌,
  ◌++◌, ◌==◌, ltb, leb, if◌then◌else◌, length, get_or, take, drop, bit_xor, replicate,
}
use esp32base.MiniData.{find_byte}

-- `EzhWebSocketMethod`
pub data Method : Type 0 where
  unknow method_1 method_2 : Method

-- What the pack functions leave: the result, and `packet` up to `*nPacket`, which a call that returns
-- early on a short frame leaves at the 0 that `zhWebSockRecvPack` set.
abbrev pub Packed : Type 0
Packed = ℕ × List ℕ

-- The `while` of `zhWebSockPackMethod_1` with fuel, at index `i`, over what is left of the array;
-- `some` is the index behind the 0xFF. `cache_len` itself is still looked at.
unfoldable pub method_1_end : ℕ → List ℕ → ℕ → ℕ → Option ℕ
method_1_end zero cache cache_len i = none
method_1_end (suc fuel) cache cache_len i =
    let next = method_1_end fuel cache cache_len (i + 1) in
    if get_or cache i 0 == 0xff then some (i + 1) else if ltb cache_len (i + 1) then none else next

-- `zhWebSockPackMethod_1`: the packet is what lies between the 0x00 and the 0xFF
unfoldable pub pack_method_1 : List ℕ → ℕ → Packed
pack_method_1 cache cache_len =
    if get_or cache 0 0 == 0
    then elim (method_1_end (cache_len + 2) cache cache_len 0) [
      | none ↦ (0, [])
      | some i ↦ (i, take (i - 2) (drop 1 cache))
    ]
    else (0, [])

-- packet[i]=packet[i]^masks[i%4]
unfoldable pub unmask : List ℕ → ℕ → List ℕ → List ℕ
unmask masks i [] = []
unmask masks i (x ∷ packet) = bit_xor x (get_or masks (i % 4) 0) ∷ unmask masks (i + 1) packet

-- the branches of `zhWebSockPackMethod_2` once the length and the header's size are known
unfoldable pub method_2_body : List ℕ → ℕ → ℕ → ℕ → Packed
method_2_body cache cache_len n_data n_head = if ltb cache_len (n_data + n_head) then (0, []) else (
  n_data + n_head,
  unmask (take 4 (drop (n_head - 4) cache)) 0 (take n_data (drop n_head cache)),
)

-- `memcpy(&tmp,&cache[2],sizeof(long int))`: four bytes, the lowest first
abbrev pub le32 : List ℕ → ℕ
le32 cache =
    get_or cache 2 0
    + 2 ^ 8 * get_or cache 3 0
    + 2 ^ 16 * get_or cache 4 0
    + 2 ^ 24 * get_or cache 5 0

-- `zhWebSockPackMethod_2`; `none` is a `memcpy` of a negative length, where `tmp` is negative
unfoldable pub pack_method_2 : List ℕ → ℕ → Option Packed
pack_method_2 cache cache_len =
    if get_or cache 0 0 == 0x81
    then (let n_code = get_or cache 1 0 % 128 in
        if n_code == 126
        then some (method_2_body cache cache_len (get_or cache 2 0 * 256 + get_or cache 3 0) 8)
        else if n_code == 127
        then (if ltb (le32 cache) (2 ^ 31)
            then some (method_2_body cache cache_len (le32 cache) 14)
            else none)
        else some (method_2_body cache cache_len n_code 6))
    else some (0, [])

-- what `zhWebSockRecvPack` returns: its result, the packet, `*frame_begin_pos`, `*frame_len`
pub record Received : Type 0 where
  pub result : ℕ
  pub packet : List ℕ
  pub frame_begin_pos : ℕ
  pub frame_len : ℕ

abbrev pub nothing_received : Received
nothing_received = record { result = 0; packet = []; frame_begin_pos = 0; frame_len = 0 }

abbrev pub received : ℕ → Packed → Received
received i (n, packet) = record {
  result = i + n;
  packet = packet;
  frame_begin_pos = i;
  frame_len = n;
}

-- `zhWebSockRecvPack`: the pack functions are given the rest of the array, and the whole `cache_len`
unfoldable pub recv_pack : Method → List ℕ → ℕ → Option Received
recv_pack unknow cache cache_len = some nothing_received
recv_pack method_1 cache cache_len =
    let i = find_byte 0x00 cache cache_len in
    if ltb i cache_len
    then some (received i (pack_method_1 (drop i cache) cache_len))
    else some nothing_received
recv_pack method_2 cache cache_len =
    let i = find_byte 0x81 cache cache_len in
    if ltb i cache_len
    then elim (pack_method_2 (drop i cache) cache_len) [
      | none ↦ none
      | some p ↦ some (received i p)
    ]
    else some nothing_received

-- `zhWebSockSendData`: the bytes of `sendData` up to `*dataLen`; `none` leaves `*dataLen` unset
unfoldable pub send_data : Method → List ℕ → Option (List ℕ)
send_data unknow buf = none
send_data method_1 buf = some (0x00 ∷ (buf ++ 0xff ∷ []))
send_data method_2 buf =
    if ltb (length buf) 126
    then some (0x81 ∷ length buf ∷ buf)
    else if leb (length buf) 0xffff
    then some (0x81 ∷ 126 ∷ length buf / 256 ∷ length buf % 256 ∷ buf)
    else none
