-- ===== src/Device/Answers.antt =====
-- The answers to a device search: that they fit their buffers, and who gets them.
use esp32base.Base.{
  ◌&&◌, ℕ, ◌+◌, ◌≤◌, ◌<◌, ◌≡◌, ◌≢◌, refl, ap, true, false, some, List, [], ◌∷◌, ◌==◌, ltb,
  if◌then◌else◌, arith, length, length-append, get_or, c_str, codes, starts_with, length-c_str,
  Bool-cases, inl, inr,
}
use esp32base.Config.{CfgData}
use esp32base.Device.{
  Names, names_of, gen_json, search_frame_data, udp_answer, LastUdp, Datagram, send_udp_last_ip,
  udp_read, from_ipv4, mcast_callback, mcast_round,
}

-- the lengths to which the configuration's arrays hold the names
pub record NamesFit (cfg : CfgData) : Type 0 where
  pub uuid : length cfg.devuuid < 64
  pub name : length cfg.devname < 32
  pub flag : length cfg.devflag < 16

length-gen_json :
    (n : Names)
    → length (gen_json n)
      ≡ length n.devflag + length n.devname + length n.subscr + length n.publish + 29
unfolding gen_json
length-gen_json n = simp length-append (omega arith)

length-udp_answer :
    (n : Names)
    → length (udp_answer n) ≡ length n.devuuid + length n.devflag + length n.devname + 21
unfolding udp_answer
length-udp_answer n = simp length-append (omega arith)

length-search_frame_data :
    (n : Names) → length (search_frame_data n) ≡ length n.devuuid + length (gen_json n) + 7
unfolding search_frame_data
length-search_frame_data n = simp length-append (omega arith)

-- With the names that the start-up code takes from a configuration whose strings end in their arrays,
-- the buffers are large enough: the JSON text and the UDP answer with their NULs fit 500 bytes, and
-- the MQTT answer fits 600.
pub search_frame_data-fits :
    (cfg : CfgData)
    → NamesFit cfg
    → (length (c_str (gen_json (names_of cfg))) ≤ 500)
      × (length (c_str (udp_answer (names_of cfg))) ≤ 500)
      × (length (search_frame_data (names_of cfg)) ≤ 600)
unfolding names_of
search_frame_data-fits cfg fit =
    let n = names_of cfg in
    (
      omega (
        arith,
        fit.name,
        fit.flag,
        length-gen_json n,
        length-append cfg.devname (codes "_"),
        length-c_str (gen_json n),
      ),
      omega (arith, fit.uuid, fit.name, fit.flag, length-udp_answer n, length-c_str (udp_answer n)),
      omega (
        arith,
        fit.uuid,
        fit.name,
        fit.flag,
        length-gen_json n,
        length-search_frame_data n,
        length-append cfg.devname (codes "_"),
      ),
    )

-- who is answered, and with what
abbrev pub answers : Names → List ℕ → ℕ → List ℕ → List Datagram
answers n ip port data_ =
    if starts_with (codes "FMSD") data_ && ltb 4 (length data_)
    then record { to_ip = ip; to_port = port; text = udp_answer n } ∷ []
    else []

callback-answers :
    (n : Names) (ip : List ℕ) (port : ℕ) (data_ : List ℕ)
    → get_or ip 0 0 ≢ 0
    → port ≢ 0
    → mcast_callback n (record { ip = ip; port = port }) data_ ≡ answers n ip port data_
unfolding mcast_callback udp_read send_udp_last_ip
callback-answers n ip port data_ h k =
    let has_port : (port == 0) ≡ false = ground arith in
    let has_ip : (get_or ip 0 0 == 0) ≡ false = ground arith in
    let search = starts_with (codes "FMSD") data_ in
    elim (Bool-cases search) [
      | inl asked ↦ elim (Bool-cases (ltb 4 (length data_))) [
        | inl long ↦
            let some_data : ltb 0 (length data_) ≡ true = ground arith in
            rw (asked, long, some_data, has_port, has_ip) refl
        | inr short ↦ elim (Bool-cases (ltb 0 (length data_))) [
          | inl some_data ↦ rw (asked, short, some_data) refl
          | inr no_data ↦ rw (asked, short, no_data) refl
        ]
      ]
      | inr other ↦ rw other (ground arith)
    ]

-- A datagram from an IPv4 address and a port that is not 0 is answered, by a call of `sendUDP`, where it
-- begins with "FMSD" and has at least five bytes, to that address and port and to nobody else; any other
-- is not answered. Either way the sender is remembered.
pub mcast_round-answers :
    (n : Names) (last : LastUdp) (ip : List ℕ) (port : ℕ) (data_ : List ℕ)
    → get_or ip 0 0 ≢ 0
    → port ≢ 0
    → mcast_round n last (from_ipv4 ip port data_)
      ≡ some (record { ip = ip; port = port }, answers n ip port data_)
unfolding mcast_round
mcast_round-answers n last ip port data_ h k =
    ap (λ d. some (record { ip = ip; port = port }, d)) (callback-answers n ip port data_ h k)
