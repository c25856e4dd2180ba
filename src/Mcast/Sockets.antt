-- ===== src/Mcast/Sockets.antt =====
-- The sockets of the multicast task, one after the other.
use esp32base.Base.{
  ℕ, ◌≡◌, refl, ap, sym, ◌∙◌, Bool, true, false, Option, none, some, List, [], ◌∷◌, ◌++◌, map,
  append_assoc, append-nil, if◌then◌else◌,
}
use esp32base.Device.{Names, LastUdp, Datagram, mcast_round}
use esp32base.Mcast.{
  zero_code, positive, Setup, socket_add_ipv4_multicast_group, is_made, McastAction, closes, waits,
  sends, create_multicast_ipv4_socket, Mcast, McastEvent, setup, recv, on_socket, on_round,
  mcast_step, app_mcast_task,
}

-- the sockets that are closed
unfoldable pub closed : List McastAction → List ℕ
closed [] = []
closed (closes fd ∷ did) = fd ∷ closed did
closed (waits ∷ did) = closed did
closed (sends d ∷ did) = closed did

-- the socket in use
abbrev pub in_use : Option ℕ → List ℕ
in_use none = []
in_use (some fd) = fd ∷ []

-- what `socket` makes at an event that the task waits for
abbrev pub asked : Option ℕ → McastEvent → List ℕ
asked none (setup how) = in_use how.fd
asked none (recv r) = []
asked (some fd) (setup how) = []
asked (some fd) (recv r) = []

-- the sockets made, in order
unfoldable pub opened : Names → Mcast → List McastEvent → List ℕ
opened n m [] = []
opened n m (e ∷ events) = asked m.udp_sock e ++ opened n (mcast_step n m m.udp_sock e).0 events

closed-append : (did more : List McastAction) → closed (did ++ more) ≡ closed did ++ closed more
unfolding closed
closed-append [] more = refl
closed-append (closes fd ∷ did) more = ap (λ t. fd ∷ t) (closed-append did more)
closed-append (waits ∷ did) more = closed-append did more
closed-append (sends d ∷ did) more = closed-append did more

closed-sends : (sent : List Datagram) → closed (map sends sent) ≡ []
unfolding closed
closed-sends [] = refl
closed-sends (d ∷ sent) = closed-sends sent

-- closed, and then in use
abbrev Accounted : Mcast × List McastAction → List ℕ → Type 0
Accounted (m', did) fds = closed did ++ in_use m'.udp_sock ≡ fds

made :
    (m : Mcast) (fd : ℕ) (ok : Bool)
    → m.udp_sock ≡ none
    → Accounted (on_socket m (if ok then (some fd, []) else (none, closes fd ∷ []))) (fd ∷ [])
unfolding closed
made m fd true e = refl
made m fd false e = ap (λ o. fd ∷ in_use o) e

setup-Accounted :
    (m : Mcast) (how : Setup) (o : Option ℕ)
    → how.fd ≡ o
    → m.udp_sock ≡ none
    → Accounted (on_socket m (create_multicast_ipv4_socket how)) (in_use o)
unfolding create_multicast_ipv4_socket
setup-Accounted m how none e idle = rw e (unfold closed in ap in_use idle)
setup-Accounted m how (some fd) e idle =
    rw e (made m fd (is_made (record how { fd = some fd })) idle)

round-Accounted :
    (m : Mcast) (fd : ℕ) (r : Option (LastUdp × List Datagram))
    → m.udp_sock ≡ some fd
    → Accounted (on_round m fd r) (fd ∷ [])
round-Accounted m fd none e = unfold closed in refl
round-Accounted m fd (some (last', sent)) e = rw (closed-sends sent, e) refl

step-Accounted :
    (n : Names) (m : Mcast) (o : Option ℕ) (e : McastEvent)
    → m.udp_sock ≡ o
    → Accounted (mcast_step n m o e) (in_use o ++ asked o e)
unfolding mcast_step
step-Accounted n m none (setup how) h = setup-Accounted m how how.fd refl h
step-Accounted n m none (recv r) h = unfold closed in ap in_use h
step-Accounted n m (some fd) (setup how) h = unfold closed in ap in_use h
step-Accounted n m (some fd) (recv r) h = round-Accounted m fd (mcast_round n m.last r) h

-- Whatever the network does, the sockets that the multicast task has closed, in order, and then the one
-- in use, if any, are exactly the one that was in use at first and those made since, in order.
pub app_mcast_task-closes :
    (n : Names) (m : Mcast) (events : List McastEvent)
    → closed (app_mcast_task n m events).1 ++ in_use (app_mcast_task n m events).0.udp_sock
      ≡ in_use m.udp_sock ++ opened n m events
unfolding app_mcast_task opened closed
app_mcast_task-closes n m [] = sym (append-nil (in_use m.udp_sock))
app_mcast_task-closes n m (e ∷ events) =
    let (m1, did) = mcast_step n m m.udp_sock e in
    let (m2, more) = app_mcast_task n m1 events in
    let now = step-Accounted n m m.udp_sock e refl in
    let later = app_mcast_task-closes n m1 events in
    ap (λ t. t ++ in_use m2.udp_sock) (closed-append did more)
    ∙ append_assoc (closed did) (closed more) (in_use m2.udp_sock)
    ∙ ap (λ t. closed did ++ t) later
    ∙ sym (append_assoc (closed did) (in_use m1.udp_sock) (opened n m1 events))
    ∙ ap (λ t. t ++ opened n m1 events) now
    ∙ append_assoc (in_use m.udp_sock) (asked m.udp_sock e) (opened n m1 events)

-- A socket that is returned need not be in the multicast group: where the interface has no address yet,
-- for which the SDK's code is positive, it is bound and returned without having joined.
pub create_multicast_ipv4_socket-outside :
    (how : Setup) (fd : ℕ)
    → how.fd ≡ some fd
    → how.bind ≡ zero_code
    → how.loopback ≡ zero_code
    → how.group.ip_info ≡ positive
    → (create_multicast_ipv4_socket how ≡ (some fd, []))
      × ((socket_add_ipv4_multicast_group how.group).1 ≡ false)
unfolding create_multicast_ipv4_socket is_made socket_add_ipv4_multicast_group
create_multicast_ipv4_socket-outside how fd made_it bound looped no_address =
    (rw (made_it, bound, looped, no_address) refl, rw no_address refl)
