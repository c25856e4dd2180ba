-- ===== src/TcpServ/Sockets.antt =====
-- No socket of a TCP client is lost.
use esp32base.Base.{
  ℕ, ◌≡◌, refl, ap, sym, ◌∙◌, List, [], ◌∷◌, ◌++◌, append_assoc, append-nil, ltb, if◌then◌else◌,
  Bool-cases, inl, inr,
}
use esp32base.TcpServ.{
  TcpServ, TcpEvent, accepts, gets, gets_end, gets_error, TcpEffect, closes, reads, writes,
  restarts, tcpserv_accept, tcpserv_recv, tcpserv_step, tcpserv_steps,
}

-- the sockets that were accepted
abbrev pub accepted_fds : List TcpEvent → List ℕ
accepted_fds [] = []
accepted_fds (accepts fd ∷ es) = (if ltb 0 fd then fd ∷ [] else []) ++ accepted_fds es
accepted_fds (gets b bs ∷ es) = accepted_fds es
accepted_fds (gets_end ∷ es) = accepted_fds es
accepted_fds (gets_error ∷ es) = accepted_fds es

-- the sockets that were closed
abbrev pub closed : List TcpEffect → List ℕ
closed [] = []
closed (closes fd ∷ es) = fd ∷ closed es
closed (reads x ∷ es) = closed es
closed (writes fd x ∷ es) = closed es
closed (restarts ∷ es) = closed es

-- the client's socket, if there is one
abbrev pub client : TcpServ → List ℕ
client t = if ltb 0 t.client_fd then t.client_fd ∷ [] else []

closed-append : (xs ys : List TcpEffect) → closed (xs ++ ys) ≡ closed xs ++ closed ys
closed-append [] ys = refl
closed-append (closes fd ∷ xs) ys = ap (λ t. fd ∷ t) (closed-append xs ys)
closed-append (reads x ∷ xs) ys = closed-append xs ys
closed-append (writes fd x ∷ xs) ys = closed-append xs ys
closed-append (restarts ∷ xs) ys = closed-append xs ys

step-closed :
    (t : TcpServ) (e : TcpEvent)
    → closed (tcpserv_step t e).1 ++ client (tcpserv_step t e).0 ≡ client t ++ accepted_fds (e ∷ [])
unfolding tcpserv_step tcpserv_accept tcpserv_recv
step-closed t (accepts fd) = elim (Bool-cases (ltb 0 fd)) [
  | inl ok ↦ elim (Bool-cases (ltb 0 t.client_fd)) [
    | inl one ↦ rw (ok, one, ok) refl
    | inr other ↦ rw (ok, other, ok) refl
  ]
  | inr bad ↦ rw bad (sym (append-nil (client t)))
]
step-closed t (gets b bs) = elim (Bool-cases (ltb 0 t.client_fd)) [
  | inl one ↦ rw (one, one) refl
  | inr other ↦ rw (other, other) refl
]
step-closed t gets_end = elim (Bool-cases (ltb 0 t.client_fd)) [
  | inl one ↦ rw (one, one) refl
  | inr other ↦ rw (other, other) refl
]
step-closed t gets_error = elim (Bool-cases (ltb 0 t.client_fd)) [
  | inl one ↦ rw one refl
  | inr other ↦ rw (other, other) refl
]

accepted_fds-cons :
    (e : TcpEvent) (es : List TcpEvent)
    → accepted_fds (e ∷ []) ++ accepted_fds es ≡ accepted_fds (e ∷ es)
accepted_fds-cons (accepts fd) es =
    ap (λ t. t ++ accepted_fds es) (append-nil (if ltb 0 fd then fd ∷ [] else []))
accepted_fds-cons (gets b bs) es = refl
accepted_fds-cons gets_end es = refl
accepted_fds-cons gets_error es = refl

-- However the rounds of the two tasks follow each other and whatever their calls return, the sockets
-- closed, in order, and then the client's, if there is one, are the client's socket at the start and
-- then those accepted, in order.
pub tcpserv_steps_lem :
    (t : TcpServ) (es : List TcpEvent)
    → closed (tcpserv_steps t es).1 ++ client (tcpserv_steps t es).0 ≡ client t ++ accepted_fds es
unfolding tcpserv_steps
tcpserv_steps_lem t [] = sym (append-nil (client t))
tcpserv_steps_lem t (e ∷ es) =
    let (t1, did) = tcpserv_step t e in
    let (t2, more) = tcpserv_steps t1 es in
    ap (λ x. x ++ client t2) (closed-append did more)
    ∙ append_assoc (closed did) (closed more) (client t2)
    ∙ ap (λ x. closed did ++ x) (tcpserv_steps_lem t1 es)
    ∙ sym (append_assoc (closed did) (client t1) (accepted_fds es))
    ∙ ap (λ x. x ++ accepted_fds es) (step-closed t e)
    ∙ append_assoc (client t) (accepted_fds (e ∷ [])) (accepted_fds es)
    ∙ ap (λ x. client t ++ x) (accepted_fds-cons e es)
