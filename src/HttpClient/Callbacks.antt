-- ===== src/HttpClient/Callbacks.antt =====
-- The order in which the callback is called, and when the socket is closed.
use esp32base.Base.{
  ℕ, suc, ◌+◌, ◌<◌, ◌≡◌, refl, Bool, true, false, Option, List, [], ◌∷◌, ◌++◌, ◌==◌, ltb, leb, ◌&&◌,
  arith, none, some, length, map, Bool-cases, inl, inr, if◌then◌else◌, append-nil, drop,
}
use esp32base.HxTcp.{Attempt}
use esp32base.HttpClient.{
  HttpThread, HttpOperat, connected, finish, recvice_fail, connect_fail, post_fail, get_data,
  get_size, SockRecv, received, nothing, failed, Stage, in_head, in_data, ended, broken,
  content_length, data_step, data_steps, head_received, head_searched, data_ok, data_done, head_end,
  get_request, post_request, post_pieces,
}
use esp32base.HttpClient.Thread.{
  zh_sock_connect, ClientAction, sends, calls, closes, send_by_method, then_receive, on_connection,
  sending, lines_fit, http_thread_data,
}

abbrev pub is_ended : Stage → Bool
is_ended (in_head cache) = false
is_ended (in_data total len) = false
is_ended ended = true
is_ended broken = false

-- The calls behind `connected`: data that is not empty, any number of times, and one call that says how
-- it ended as the last, just where it has.
abbrev pub DataRun : Bool → List HttpOperat → Type 0
DataRun true [] = ⊥
DataRun false [] = Unit
DataRun at_the_end (get_data bytes ∷ ops) = (0 < length bytes) × DataRun at_the_end ops
DataRun at_the_end (finish ∷ ops) = (at_the_end ≡ true) × (ops ≡ [])
DataRun at_the_end (recvice_fail ∷ ops) = (at_the_end ≡ true) × (ops ≡ [])
DataRun at_the_end (post_fail ∷ ops) = (at_the_end ≡ true) × (ops ≡ [])
DataRun at_the_end (connected ∷ ops) = ⊥
DataRun at_the_end (connect_fail ∷ ops) = ⊥
DataRun at_the_end (get_size n ∷ ops) = ⊥

DataRun-append :
    (e : Bool) (ops more : List HttpOperat)
    → DataRun false ops
    → DataRun e more
    → DataRun e (ops ++ more)
DataRun-append e [] more h k = k
DataRun-append e (get_data bytes ∷ ops) more h k = (h.0, DataRun-append e ops more h.1 k)
DataRun-append e (finish ∷ ops) more h k = cc (h.0)
DataRun-append e (recvice_fail ∷ ops) more h k = cc (h.0)
DataRun-append e (post_fail ∷ ops) more h k = cc (h.0)
DataRun-append e (connected ∷ ops) more h k = absurd h
DataRun-append e (connect_fail ∷ ops) more h k = absurd h
DataRun-append e (get_size n ∷ ops) more h k = absurd h

-- what a step or a run makes of a stage
abbrev Runs : Stage × List HttpOperat → Type 0
Runs (stage, out) = DataRun (is_ended stage) out

data_done-Runs : (total len : ℕ) → Runs (data_done total len)
unfolding data_done
data_done-Runs total len = elim (Bool-cases (ltb 0 total && leb total len)) [
  | inl all ↦ rw all (refl, refl)
  | inr less ↦ rw less tt
]

data_ok-Runs : (cache : List ℕ) (total : Option ℕ) (n : ℕ) → Runs (data_ok cache total n)
unfolding data_ok
data_ok-Runs cache none n = tt
data_ok-Runs cache (some total) n = elim (Bool-cases (ltb 0 (length (drop n cache)))) [
  | inl some_data ↦ rw some_data (ground arith, tt)
  | inr no_data ↦ rw no_data tt
]

head_searched-Runs : (cache : List ℕ) (found : Option ℕ) → Runs (head_searched cache found)
unfolding head_searched
head_searched-Runs cache none = tt
head_searched-Runs cache (some n) = data_ok-Runs cache (content_length cache) n

head_received-Runs : (cache bytes : List ℕ) → Runs (head_received cache bytes)
unfolding head_received
head_received-Runs cache bytes = elim (Bool-cases (leb 2050 (length cache + length bytes))) [
  | inl full ↦ rw full (refl, refl)
  | inr fits ↦ rw fits (head_searched-Runs (cache ++ bytes) (head_end (cache ++ bytes) 0))
]

data_step-Runs : (stage : Stage) (r : SockRecv) → is_ended stage ≡ false → Runs (data_step stage r)
unfolding data_step
data_step-Runs (in_head cache) (received b bs) h = head_received-Runs cache (b ∷ bs)
data_step-Runs (in_head cache) nothing h = tt
data_step-Runs (in_head cache) failed h = (refl, refl)
data_step-Runs (in_data total len) (received b bs) h =
    (omega arith, data_done-Runs total (len + length (b ∷ bs)))
data_step-Runs (in_data total len) nothing h = data_done-Runs total len
data_step-Runs (in_data total len) failed h = (refl, refl)
data_step-Runs ended r h = cc h
data_step-Runs broken r h = tt

data_steps-ended : (rs : List SockRecv) → data_steps ended rs ≡ (ended, [])
unfolding data_steps data_step
data_steps-ended [] = refl
data_steps-ended (r ∷ rs) = rw (data_steps-ended rs) refl

-- a step, and the rest of the run
then_run :
    (step : Stage × List HttpOperat) (rs : List SockRecv)
    → Runs step
    → ((stage : Stage) → is_ended stage ≡ false → Runs (data_steps stage rs))
    → Runs ((data_steps step.0 rs).0, step.1 ++ (data_steps step.0 rs).1)
then_run (in_head cache, out) rs now later =
    let rest = data_steps (in_head cache) rs in
    DataRun-append (is_ended rest.0) out rest.1 now (later (in_head cache) refl)
then_run (in_data total len, out) rs now later =
    let rest = data_steps (in_data total len) rs in
    DataRun-append (is_ended rest.0) out rest.1 now (later (in_data total len) refl)
then_run (broken, out) rs now later =
    let rest = data_steps broken rs in
    DataRun-append (is_ended rest.0) out rest.1 now (later broken refl)
then_run (ended, out) rs now later =
    let all : out ++ [] ≡ out = append-nil out in rw (data_steps-ended rs, all) now

data_steps-Runs :
    (stage : Stage) (rs : List SockRecv) → is_ended stage ≡ false → Runs (data_steps stage rs)
unfolding data_steps
data_steps-Runs stage [] h = rw h tt
data_steps-Runs stage (r ∷ rs) h =
    then_run (data_step stage r) rs (data_step-Runs stage r h)
      (λ stage1 more. data_steps-Runs stage1 rs more)

-- what a run has done behind `connected`: texts are sent, then the callback is called, then the socket
-- is closed if it is over
abbrev pub IsTail : Stage → List ClientAction → Type 0
IsTail stage did =
    (texts : List (List ℕ)) × (ops : List HttpOperat) × (did
      ≡ map sends texts ++ (map calls ops ++ (if is_ended stage then closes ∷ [] else [])))
    × DataRun (is_ended stage) ops

then_receive-IsTail :
    (texts : List (List ℕ)) (run : Stage × List HttpOperat)
    → Runs run
    → IsTail
        (then_receive (map sends texts, true) run).0
        (then_receive (map sends texts, true) run).1
then_receive-IsTail texts (in_head cache, out) h = (texts, out, refl, h)
then_receive-IsTail texts (in_data total len, out) h = (texts, out, refl, h)
then_receive-IsTail texts (ended, out) h = (texts, out, refl, h)
then_receive-IsTail texts (broken, out) h = (texts, out, refl, h)

receive-IsTail :
    (p : HttpThread) (results : List (Option ℕ)) (run : Stage × List HttpOperat)
    → Runs run
    → IsTail
        (then_receive (send_by_method p results) run).0
        (then_receive (send_by_method p results) run).1
unfolding send_by_method
receive-IsTail p results run h = elim (Bool-cases (p.method == 1)) [
  | inl get ↦ rw get (then_receive-IsTail (get_request p ∷ []) run h)
  | inr other ↦ rw other (elim (Bool-cases (p.method == 2)) [
    | inl post ↦
        let pieces = post_pieces (suc (length results)) results p.body 0 (length p.body) in
        rw post (elim (Bool-cases pieces.1) [
          | inl done ↦ rw done (then_receive-IsTail ((post_request p ++ pieces.0) ∷ []) run h)
          | inr lost ↦
              rw lost ((post_request p ++ pieces.0) ∷ [], post_fail ∷ [], refl, (refl, refl))
        ])
    | inr neither ↦ rw neither (then_receive-IsTail [] run h)
  ])
]

-- a run that faults at once, one without a connection, and one with it
abbrev pub IsRun : Option Bool → Stage × List ClientAction → Type 0
IsRun none run = run ≡ (broken, [])
IsRun (some false) run = run ≡ (ended, calls connect_fail ∷ closes ∷ [])
IsRun (some true) run =
    (did : List ClientAction) × (run.1 ≡ calls connected ∷ did) × IsTail run.0 did

connect-IsRun :
    (is_accepted : Option Bool) (run : Stage × List ClientAction)
    → IsTail run.0 run.1
    → IsRun is_accepted (on_connection is_accepted run)
connect-IsRun none (stage, did) h = refl
connect-IsRun (some false) (stage, did) h = refl
connect-IsRun (some true) (stage, did) h = (did, refl, h)

sending-IsTail :
    (fit : Bool) (run : Stage × List ClientAction)
    → IsTail run.0 run.1
    → IsTail (sending fit run).0 (sending fit run).1
sending-IsTail false run h = ([], [], refl, tt)
sending-IsTail true run h = h

-- Whatever the network does, a run of the thread that gets or posts does nothing more where the host is
-- not found, a fault, and calls `connect_fail` alone and closes the socket where there is no connection
-- otherwise. Where there is one, it calls `connected` first and once; then come the texts it sends; then
-- data that is never empty; and it has called how it ended, last and once, and closed the socket, last
-- and once, just where it is over. A run that has faulted, in a line of its request or in the header of
-- the answer, is not over.
pub http_thread_data-IsRun :
    (p : HttpThread) (attempt : Option Attempt) (results : List (Option ℕ)) (rs : List SockRecv)
    → IsRun (zh_sock_connect p.url.host p.url.port attempt) (http_thread_data p attempt results rs)
unfolding http_thread_data
http_thread_data-IsRun p attempt results rs =
    let run = then_receive (send_by_method p results) (data_steps (in_head []) rs) in
    connect-IsRun (zh_sock_connect p.url.host p.url.port attempt) (sending (lines_fit p) run) (
      sending-IsTail (lines_fit p) run (
        receive-IsTail p results (data_steps (in_head []) rs)
          (data_steps-Runs (in_head []) rs refl)))
