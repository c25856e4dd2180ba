-- ===== src/Tests/Frames.antt =====
-- The frames, the cloud client and the serial lines at concrete inputs.
use esp32base.Base.{
  ℕ, ◌≡◌, refl, true, some, List, [], ◌∷◌, ◌++◌, arith, length, take, drop, replicate,
}
use esp32base.MiniData.{MiniData, create, get}
use esp32base.MiniData.RoundTrip.{get-create, framed, parameter_at}
use esp32base.Stream.{Stream}
use esp32base.Stream.Total.{IsValid}
use esp32base.Yun.{dtrs_recv_data}
use esp32base.Yun.Receive.{dtrs_recv_data_total}

abbrev no_cmd : MiniData
no_cmd = record {
  head = 0;
  parameter_len = 0;
  parameter = 0;
  end = 0;
  frame_head = 0;
  frame_len = 0;
}

abbrev three : List ℕ
three = 1 ∷ 2 ∷ 3 ∷ []

get-create_example :
    (get (create 3 three ++ 7 ∷ []) 7 no_cmd ≡ (length (create 3 three), true, framed three))
    × (take 3 (drop (parameter_at three) (create 3 three ++ 7 ∷ [])) ≡ three)
get-create_example =
    get-create three (7 ∷ []) 7 no_cmd (omega arith) (omega arith) (unfold create in omega arith)

abbrev frame_bytes : List ℕ
frame_bytes = 0xaf ∷ 2 ∷ 8 ∷ 9 ∷ 0xfa ∷ []

-- an empty cache of 1400 bytes
abbrev empty_cache : Stream
empty_cache = record { cache = replicate 1400 0; len = 0; cmd = no_cmd }

dtrs_recv_data_total_example :
    (s' : Stream) × (out : List (List ℕ)) × (dtrs_recv_data empty_cache frame_bytes
      ≡ some (s', out))
    × IsValid 1400 s'
dtrs_recv_data_total_example =
    dtrs_recv_data_total empty_cache frame_bytes (record { size = refl; fits = omega arith })
      (omega arith)
