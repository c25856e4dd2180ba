-- ===== src/Yun.antt =====
-- components/hxkong_yun/hxkong_yun.c: the cloud client's frames. Its transport, hxkong_tcp.c, is
-- what the model returns (the bytes handed to `hxtcp_send`) and takes (those received).
pub mod Receive
pub mod Partial
pub mod Drained
pub mod Pieces
pub mod Send
use esp32base.Base.{
  ℕ, suc, ◌+◌, ◌-◌, ◌%◌, Bool, true, false, Option, none, some, List, [], ◌∷◌, ◌++◌, ◌==◌, ltb,
  if◌then◌else◌, length, get_or, take, drop, c_str,
}
use esp32base.MiniData.{MiniData, create}
use esp32base.Stream.{Stream, blit, drain}

-- `EzhTransDevNetProtocol`
abbrev pub data_msg : ℕ
data_msg = 0

abbrev pub data_ret : ℕ
data_ret = 1

abbrev pub keep : ℕ
keep = 2

abbrev pub sign_in_dev : ℕ
sign_in_dev = 4

abbrev pub set_dev_info : ℕ
set_dev_info = 6

-- `actionTransServDataFunc`: what it passes to the user's callback; the other commands only print
unfoldable pub action_trans_serv_data : ℕ → List ℕ → List (List ℕ)
action_trans_serv_data cmd param = if cmd == data_ret then param ∷ [] else []

-- the branch on `g_isYunGetCmdOk`
unfoldable pub yun_frame : List ℕ → MiniData → List (List ℕ)
yun_frame cache cmd =
    action_trans_serv_data (get_or cache cmd.parameter 0)
      (take (cmd.parameter_len - 1) (drop (cmd.parameter + 1) cache))

-- the buffer overflow guard, and the copy behind it
unfoldable pub store : Stream → List ℕ → Stream
store s param =
    let pos = if ltb 1399 (s.len + length param) then 0 else s.len in
    record s { cache = blit s.cache pos param; len = pos + length param }

-- `dtrs_recv_data_callback`, with the fuel that its loop needs: the new state, and what the user's
-- callback was given
unfoldable pub dtrs_recv_data : Stream → List ℕ → Option (Stream × List (List ℕ))
dtrs_recv_data s param = let s' = store s param in drain yun_frame (suc s'.len) s'

-- `iotYunSend`: `len + 1` is an int, and `miniDataCreate` takes an unsigned char
unfoldable pub iot_yun_send : List ℕ → List ℕ
iot_yun_send buf = create ((length buf + 1) % 256) (data_msg ∷ buf)

-- the `param` that `actionSignIn` builds; the strings come without their NUL
abbrev pub sign_in_param : List ℕ → List ℕ → List ℕ
sign_in_param dpid dev_uuid = sign_in_dev ∷ (c_str dpid ++ c_str dev_uuid)

-- `actionSignIn`
unfoldable pub action_sign_in : List ℕ → List ℕ → List ℕ
action_sign_in dpid dev_uuid =
    let param = sign_in_param dpid dev_uuid in create (length param % 256) param

-- the `param` of `actionSetDevInfo`
abbrev pub set_dev_info_param : List ℕ → List ℕ → List ℕ → List ℕ
set_dev_info_param caid devflag dev_name =
    set_dev_info ∷ (c_str caid ++ (c_str devflag ++ c_str dev_name))

-- `actionSetDevInfo`
unfoldable pub action_set_dev_info : List ℕ → List ℕ → List ℕ → List ℕ
action_set_dev_info caid devflag dev_name =
    let param = set_dev_info_param caid devflag dev_name in create (length param % 256) param

-- `actionKeep`
unfoldable pub action_keep : List ℕ
action_keep = create 1 (keep ∷ [])
