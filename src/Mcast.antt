-- ===== src/Mcast.antt =====
-- components/udp_multicast/udp_multicast.c: the socket of the multicast task, how it is made, and when
-- it is closed. The rounds on a socket are `mcast_round` of `Device`.
pub mod Sockets
use esp32base.Base.{
  ℕ, Bool, true, false, Option, none, some, List, [], ◌∷◌, ◌++◌, map, if◌then◌else◌,
}
use esp32base.Device.{Names, LastUdp, Datagram, RecvFrom, mcast_round}

-- a result of the SDK by its sign: the error codes of the TCP/IP adapter are positive
pub data Code : Type 0 where
  negative zero_code positive : Code

-- how the calls of `socket_add_ipv4_multicast_group` turn out: the interface's address, whether the
-- multicast address is valid, and the two options
pub record Group : Type 0 where
  pub ip_info : Code
  pub is_valid : Bool
  pub multicast_if : Code
  pub membership : Code

-- and those of `create_multicast_ipv4_socket`
pub record Setup : Type 0 where
  pub fd : Option ℕ
  pub bind : Code
  pub loopback : Code
  pub group : Group

-- `socket_add_ipv4_multicast_group` with `assign_source_if` true: its result, and whether the socket is
-- in the group
unfoldable pub socket_add_ipv4_multicast_group : Group → Code × Bool
socket_add_ipv4_multicast_group g = elim g.ip_info [
  | negative ↦ (negative, false)
  | positive ↦ (positive, false)
  | zero_code ↦
      if g.is_valid
      then elim g.multicast_if [
        | negative ↦ (negative, false)
        | zero_code ↦ (g.membership, elim g.membership [ negative ↦ false | _ ↦ true ])
        | positive ↦ (g.membership, elim g.membership [ negative ↦ false | _ ↦ true ])
      ]
      else (zero_code, false)
]

abbrev pub is_negative : Code → Bool
is_negative negative = true
is_negative zero_code = false
is_negative positive = false

-- `create_multicast_ipv4_socket` with a socket: whether it is returned. The result of the TTL option is
-- not looked at.
unfoldable pub is_made : Setup → Bool
is_made setup =
    if is_negative setup.bind
    then false
    else if is_negative setup.loopback
    then false
    else if is_negative (socket_add_ipv4_multicast_group setup.group).0
    then false
    else true

pub data McastAction : Type 0 where
  closes : ℕ → McastAction
  waits : McastAction
  sends : Datagram → McastAction

-- `create_multicast_ipv4_socket`: the socket, or -1, and what it closes
unfoldable pub create_multicast_ipv4_socket : Setup → Option ℕ × List McastAction
create_multicast_ipv4_socket setup = elim setup.fd [
  | none ↦ (none, [])
  | some fd ↦ if is_made setup then (some fd, []) else (none, closes fd ∷ [])
]

-- `g_udp_sock` where the inner loop runs, and the last sender
pub record Mcast : Type 0 where
  pub udp_sock : Option ℕ
  pub last : LastUdp

-- what happens next: a socket is asked for, or `recvfrom` returns
pub data McastEvent : Type 0 where
  setup : Setup → McastEvent
  recv : RecvFrom → McastEvent

-- the branch on the result of `create_multicast_ipv4_socket`
abbrev pub on_socket : Mcast → Option ℕ × List McastAction → Mcast × List McastAction
on_socket m (none, did) = (m, did ++ waits ∷ [])
on_socket m (some fd, did) = (record m { udp_sock = some fd }, did)

-- the end of a round on a socket
abbrev pub on_round : Mcast → ℕ → Option (LastUdp × List Datagram) → Mcast × List McastAction
on_round m fd none = (record m { udp_sock = none }, closes fd ∷ [])
on_round m fd (some (last', sent)) = (record m { last = last' }, map sends sent)

-- `app_mcast_task`: an event that the task waits for; another one is none of its
unfoldable pub mcast_step : Names → Mcast → Option ℕ → McastEvent → Mcast × List McastAction
mcast_step n m none (setup how) = on_socket m (create_multicast_ipv4_socket how)
mcast_step n m none (recv r) = (m, [])
mcast_step n m (some fd) (setup how) = (m, [])
mcast_step n m (some fd) (recv r) = on_round m fd (mcast_round n m.last r)

unfoldable pub app_mcast_task : Names → Mcast → List McastEvent → Mcast × List McastAction
app_mcast_task n m [] = (m, [])
app_mcast_task n m (e ∷ events) =
    let (m1, did) = mcast_step n m m.udp_sock e in
    let (m2, more) = app_mcast_task n m1 events in (m2, did ++ more)
