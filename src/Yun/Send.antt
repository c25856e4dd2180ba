-- ===== src/Yun/Send.antt =====
-- What the peer's `miniDataGet` reads from the frames that the cloud client sends.
use esp32base.Base.{
  ℕ, ◌+◌, ◌%◌, ◌≤◌, ◌<◌, ◌≡◌, true, List, [], ◌∷◌, ◌++◌, append-nil, arith, length, length-append,
  length-take, take-take, c_str, length-c_str, ◌≢◌, take, drop,
}
use esp32base.MiniData.{MiniData, create, get}
use esp32base.MiniData.RoundTrip.{framed, parameter_at, get-create}
use esp32base.Yun.{
  data_msg, keep, sign_in_param, set_dev_info_param, iot_yun_send, action_sign_in,
  action_set_dev_info, action_keep,
}

-- A peer that holds exactly the sent bytes reads one frame that is all of them, with parameter `p`.
abbrev pub Reads : List ℕ → List ℕ → Type 0
Reads sent p =
    (pcmd : MiniData)
    → (get sent (length sent) pcmd ≡ (length sent, true, framed p))
      × (take (length p) (drop (parameter_at p) sent) ≡ p)

create-Reads :
    (n : ℕ) (p : List ℕ) → n ≡ length p → 0 < length p → length p < 256 → Reads (create n p) p
create-Reads n p e h k pcmd =
    let frame = create (length p) p in
    rw e (rw (append-nil frame) at (get-create p [] (length frame) pcmd h k (omega arith)))

-- A length that is smaller than the parameter's cuts it.
create-take : (n : ℕ) (p : List ℕ) → create n (take n p) ≡ create n p
unfolding create
create-take n p = rw (take-take n n p (omega arith))

-- the parameter length that `miniDataCreate` is given for a message
abbrev pub sent_len : List ℕ → ℕ
sent_len buf = (length buf + 1) % 256

-- A message whose length is one below a multiple of 256 is not sent at all.
pub iot_yun_send-nil : (buf : List ℕ) → sent_len buf ≡ 0 → iot_yun_send buf ≡ []
unfolding iot_yun_send create
iot_yun_send-nil buf e = rw e

-- Of every other message the peer reads one frame, whose parameter is the data command and the
-- message, cut to the message's length plus one modulo 256.
pub iot_yun_send-Reads :
    (buf : List ℕ)
    → sent_len buf ≢ 0
    → Reads (iot_yun_send buf) (take (sent_len buf) (data_msg ∷ buf))
unfolding iot_yun_send
iot_yun_send-Reads buf h =
    let r = sent_len buf in
    let p = take r (data_msg ∷ buf) in
    let size : length p ≡ r = length-take r (data_msg ∷ buf) (omega arith) in
    rw (← create-take r (data_msg ∷ buf))
      (create-Reads r p (omega arith) (omega arith) (omega arith))

-- A message of at most 254 bytes arrives whole: the peer reads one frame, whose parameter is the data
-- command and the message.
pub iot_yun_send_whole :
    (buf : List ℕ) → length buf < 255 → Reads (iot_yun_send buf) (data_msg ∷ buf)
unfolding iot_yun_send
iot_yun_send_whole buf h =
    create-Reads (sent_len buf) (data_msg ∷ buf) (omega arith) (omega arith) (omega arith)

-- The sign-in frame carries the command and both strings, each with its NUL, whenever they have at
-- most 252 bytes together.
pub action_sign_in-Reads :
    (dpid dev_uuid : List ℕ)
    → length dpid + length dev_uuid ≤ 252
    → Reads (action_sign_in dpid dev_uuid) (sign_in_param dpid dev_uuid)
unfolding action_sign_in
action_sign_in-Reads dpid dev_uuid h =
    let small : length (sign_in_param dpid dev_uuid) < 256 = omega (
      arith,
      length-append (c_str dpid) (c_str dev_uuid),
      length-c_str dpid,
      length-c_str dev_uuid,
    ) in
    create-Reads _ (sign_in_param dpid dev_uuid) (omega arith) (omega arith) small

-- The device information frame carries the command and the three strings, each with its NUL,
-- whenever they have at most 251 bytes together.
pub action_set_dev_info-Reads :
    (caid devflag dev_name : List ℕ)
    → length caid + length devflag + length dev_name ≤ 251
    → Reads (action_set_dev_info caid devflag dev_name) (set_dev_info_param caid devflag dev_name)
unfolding action_set_dev_info
action_set_dev_info-Reads caid devflag dev_name h =
    let small : length (set_dev_info_param caid devflag dev_name) < 256 = omega (
      arith,
      length-append (c_str caid) (c_str devflag ++ c_str dev_name),
      length-append (c_str devflag) (c_str dev_name),
      length-c_str caid,
      length-c_str devflag,
      length-c_str dev_name,
    ) in
    create-Reads _ (set_dev_info_param caid devflag dev_name) (omega arith) (omega arith) small

-- The keep-alive frame carries its command alone.
action_keep-Reads : Reads action_keep (keep ∷ [])
unfolding action_keep
action_keep-Reads = create-Reads 1 (keep ∷ []) (omega arith) (omega arith) (omega arith)
