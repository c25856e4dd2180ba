-- ===== src/WebSocket/Scan.antt =====
-- `zhWebSockRecvPack`: the scan for the start of a frame.
use esp32base.Base.{
  ℕ, zero, suc, ◌+◌, ◌≤◌, ◌<◌, ◌≡◌, ap, ◌∙◌, true, false, some, List, [], ◌∷◌, ◌++◌, arith, length,
  ltb, drop, drop-append_length, All, AllBytes, ◌==◌,
}
use esp32base.MiniData.{find_byte}
use esp32base.WebSocket.{method_2, Packed, Received, received, pack_method_2, recv_pack}
use esp32base.WebSocket.Rfc.{client_frame, pack_method_2-client_frame}

find_byte-noise :
    (b : ℕ) (noise xs : List ℕ) (n : ℕ)
    → All (λ c. (c == b) ≡ false) noise
    → length noise < n
    → find_byte b (noise ++ b ∷ xs) n ≡ length noise
unfolding find_byte
find_byte-noise b noise xs zero h k = absurd (omega arith)
find_byte-noise b [] xs (suc n) h k = ground arith
find_byte-noise b (c ∷ noise) xs (suc n) h k =
    rw h.0 (ap suc (find_byte-noise b noise xs n h.1 (omega arith)))

recv_pack_found :
    (cache : List ℕ) (i cache_len : ℕ) (p : Packed)
    → find_byte 0x81 cache cache_len ≡ i
    → i < cache_len
    → pack_method_2 (drop i cache) cache_len ≡ some p
    → recv_pack method_2 cache cache_len ≡ some (received i p)
unfolding recv_pack
recv_pack_found cache i cache_len p found before packed =
    let inside : ltb i cache_len ≡ true = ground arith in rw (found, inside, packed, found)

-- Bytes without a frame's first byte, then a client's frame, then anything: the scan reports the
-- frame's place and its text, and as its result the bytes before the frame and the frame.
pub recv_pack-client_frame :
    (a b c d : ℕ) (noise text rest : List ℕ) (cache_len : ℕ)
    → All (λ x. (x == 0x81) ≡ false) noise
    → AllBytes (a ∷ b ∷ c ∷ d ∷ [])
    → AllBytes text
    → length text ≤ 65535
    → length noise < cache_len
    → length (client_frame a b c d text) ≤ cache_len
    → recv_pack method_2 (noise ++ (client_frame a b c d text ++ rest)) cache_len
      ≡ some (received (length noise) (length (client_frame a b c d text), text))
recv_pack-client_frame a b c d noise text rest cache_len h masks bytes small before fits =
    let found =
      find_byte-noise 0x81 noise (drop 1 (client_frame a b c d text) ++ rest) cache_len h before in
    let here = drop-append_length noise (client_frame a b c d text ++ rest) in
    let packed = pack_method_2-client_frame a b c d text rest cache_len masks bytes small fits in
    recv_pack_found (noise ++ (client_frame a b c d text ++ rest)) (length noise) cache_len _ found
      before (ap (λ t. pack_method_2 t cache_len) here ∙ packed)

-- The frame behind other bytes is measured against all the bytes held. So where it has not arrived
-- whole, but would fit if it stood in front, the scan takes it, with bytes of the array that were not
-- received, and its result is greater than the number of bytes held.
pub recv_pack-overrun :
    (a b c d : ℕ) (noise text rest : List ℕ) (cache_len : ℕ)
    → All (λ x. (x == 0x81) ≡ false) noise
    → AllBytes (a ∷ b ∷ c ∷ d ∷ [])
    → AllBytes text
    → length text ≤ 65535
    → length noise < cache_len
    → length (client_frame a b c d text) ≤ cache_len
    → cache_len < length noise + length (client_frame a b c d text)
    → (r : Received) × (recv_pack method_2 (noise ++ (client_frame a b c d text ++ rest)) cache_len
        ≡ some r)
      × (cache_len < r.result)
recv_pack-overrun a b c d noise text rest cache_len h masks bytes small before fits late = (
  received (length noise) (length (client_frame a b c d text), text),
  recv_pack-client_frame a b c d noise text rest cache_len h masks bytes small before fits,
  late,
)
