-- ===== src/Command/Laws.antt =====
-- What a command line leads to.
use esp32base.Base.{
  ◌>>=◌, ℕ, ◌<◌, ◌≡◌, refl, ap, ◌∙◌, true, false, some, List, [], ◌∷◌, ◌++◌, ◌==◌, ltb, arith,
  length, All, AllNonzero, AllNonzero-append, codes, bytes_eq, until_nul, until_nul-append,
}
use esp32base.Text.{trim, span, atoi}
use esp32base.Config.{Flash, update_cfg, set_mqtt}
use esp32base.Command.{
  Word, saved, is_positive, mqtt_app_start, refused, Run, split_comma, fits, finished, with_two,
  cmd_setmqtt, save_uart1, cmd_setuart1, first_word, skip_space, word_of, setmqtt, setuart1,
  run_word, do_command,
}

split_comma-first :
    (a b : List ℕ) → All (λ c. (c == b',') ≡ false) a → split_comma (a ++ b',' ∷ b) ≡ some (a, b)
unfolding split_comma
split_comma-first [] b h = refl
split_comma-first (c ∷ a) b h = rw (h.0, split_comma-first a b h.1)

with_two-fits :
    {S : Type 0}
    → (flash : Flash S) (param1 param2 : List ℕ) (run : List ℕ → List ℕ → S → Run S) (s : S)
    → length param1 < 150
    → length param2 < 150
    → with_two flash (some (param1, param2)) run s ≡ run (trim param1) (trim param2) s
unfolding with_two
with_two-fits flash param1 param2 run s h k =
    let first : fits param1 ≡ true = ground arith in
    let second : fits param2 ≡ true = ground arith in rw (first, second) refl

setmqtt-two :
    {S : Type 0}
    → (flash : Flash S) (line param1 param2 : List ℕ) (n : ℕ) (s : S)
    → split_comma line ≡ some (param1, param2)
    → length param1 < 150
    → length param2 < 150
    → atoi (trim param2) ≡ some n
    → cmd_setmqtt flash line s
      ≡ finished (mqtt_app_start ∷ []) (refused ∷ []) (set_mqtt flash (trim param1) n s)
unfolding cmd_setmqtt
setmqtt-two flash line param1 param2 n s e h k number =
    ap
      (λ p.
        with_two flash p
          (λ host port s. atoi port >>= λ n.
            finished (mqtt_app_start ∷ []) (refused ∷ []) (set_mqtt flash host n s))
          s)
      e
    ∙ (with_two-fits flash param1 param2 _ s h k ∙ rw number refl)

do_command-word :
    {S : Type 0}
    → (flash : Flash S) (mem word : List ℕ) (w : Word) (s : S) → first_word (until_nul mem) ≡ word
    → length word < 196
    → word_of word ≡ w
    → do_command flash mem s ≡ run_word flash w mem word s
unfolding do_command
do_command-word flash mem word w s e small is_w =
    let fits_command : ltb (length word) 196 ≡ true = ground arith in
    rw (e, fits_command, is_w) refl

setmqtt_word : (args : List ℕ) → first_word (codes "setmqtt " ++ args) ≡ codes "setmqtt"
unfolding first_word skip_space span
setmqtt_word args = refl

setuart1_word : (args : List ℕ) → first_word (codes "setuart1 " ++ args) ≡ codes "setuart1"
unfolding first_word skip_space span
setuart1_word args = refl

-- "setmqtt", a blank, a text of less than 120 characters without a comma, a comma and another text of
-- less than 150, from which atoi reads an int: that int is set as the port. But the host that is set is
-- the first with the command word and the blank in front.
pub do_command-setmqtt :
    {S : Type 0}
    → (flash : Flash S) (host port behind : List ℕ) (n : ℕ) (s : S)
    → All (λ c. (c == b',') ≡ false) host
    → AllNonzero host
    → AllNonzero port
    → length host < 120
    → length port < 150
    → atoi (trim port) ≡ some n
    → do_command flash (codes "setmqtt " ++ ((host ++ b',' ∷ port) ++ 0 ∷ behind)) s
      ≡ finished
          (mqtt_app_start ∷ [])
          (refused ∷ [])
          (set_mqtt flash (trim (codes "setmqtt " ++ host)) n s)
unfolding run_word
do_command-setmqtt flash host port behind n s h hh hp small small' number =
    let word = codes "setmqtt " in
    let line = word ++ (host ++ b',' ∷ port) in
    let mem = word ++ ((host ++ b',' ∷ port) ++ 0 ∷ behind) in
    let text = AllNonzero-append host (b',' ∷ port) hh (omega arith, hp) in
    let e : until_nul mem ≡ line = until_nul-append line behind (
      AllNonzero-append word (host ++ b',' ∷ port)
        (
          omega arith,
          (
            omega arith,
            (
              omega arith,
              (omega arith, (omega arith, (omega arith, (omega arith, (omega arith, tt))))),
            ),
          ),
        )
        text) in
    do_command-word flash mem (codes "setmqtt") setmqtt s
      (ap first_word e ∙ setmqtt_word (host ++ b',' ∷ port)) (omega arith)
      (unfold word_of bytes_eq in refl)
    ∙ ap (λ t. cmd_setmqtt flash t s) e
    ∙ setmqtt-two flash line (word ++ host) port n s
        (split_comma-first (word ++ host) port
          (refl, (refl, (refl, (refl, (refl, (refl, (refl, (refl, h)))))))))
        (omega arith) small' number

-- "setuart1", a blank and a text with a positive int: that number, of the text alone, is saved, and
-- the system restarts where the write succeeds.
pub do_command-setuart1 :
    {S : Type 0}
    → (flash : Flash S) (rate behind : List ℕ) (n : ℕ) (s : S) → AllNonzero rate
    → length rate < 150
    → atoi (trim rate) ≡ some n
    → is_positive n ≡ true
    → do_command flash (codes "setuart1 " ++ (rate ++ 0 ∷ behind)) s
      ≡ saved s (update_cfg flash (λ cfg. record cfg { uart1_baud_rate = n }) s)
unfolding run_word cmd_setuart1 save_uart1
do_command-setuart1 flash rate behind n s h small number good =
    let word = codes "setuart1 " in
    let mem = word ++ (rate ++ 0 ∷ behind) in
    let e : until_nul mem ≡ word ++ rate = until_nul-append (word ++ rate) behind (
      AllNonzero-append word rate
        (
          omega arith,
          (
            omega arith,
            (
              omega arith,
              (
                omega arith,
                (omega arith, (omega arith, (omega arith, (omega arith, (omega arith, tt))))),
              ),
            ),
          ),
        )
        h) in
    let arg : until_nul (rate ++ 0 ∷ behind) ≡ rate = until_nul-append rate behind h in
    let fits_param : fits rate ≡ true = ground arith in
    do_command-word flash mem (codes "setuart1") setuart1 s (ap first_word e ∙ setuart1_word rate)
      (omega arith) (unfold word_of bytes_eq in refl)
    ∙ rw (arg, fits_param, number, good) refl
