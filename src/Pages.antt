-- ===== src/Pages.antt =====
-- The pages of the device: pfWebServ_Callback and pfWebServ_Done of main/trans_data.c, and the texts of
-- the answers, components/http/http_serv.c. The flash driver is a parameter.
pub mod Command
pub mod Answer
pub mod Template
pub mod Shown
pub mod Info
use esp32base.Base.{
  ℕ, ◌+◌, Bool, true, false, ◌||◌, Option, none, some, List, [], ◌∷◌, ◌++◌, if◌then◌else◌, length,
  leb, take, bytes_eq, codes, c_str, decimal, until_nul, ◌>>=◌,
}
use esp32base.Config.{CfgData, Flash}
use esp32base.Command.{Action, do_command}
use esp32base.SpiData.{text_end}
use esp32base.UrlCodec.{url_decode}
use esp32base.UrlParser.{replace_in}
use esp32base.WebServer.{WebEffect, close, callback, done_callback}

-- the end of a line, and the colon that the source writes behind three of the names: the two bytes of a
-- full-width one
abbrev pub eol : List ℕ
eol = 13 ∷ 10 ∷ []

abbrev pub wide_colon : List ℕ
wide_colon = 0xA3 ∷ 0xBA ∷ []

-- what the three answers have between their first line and their last
abbrev pub answer_fields : ℕ → List ℕ
answer_fields content_len =
    codes "Server"
    ++ (wide_colon
        ++ (codes "hx-httpd (hx-mcu)"
            ++ (eol
                ++ (codes "Content-Length"
                    ++ (wide_colon
                        ++ (decimal content_len
                            ++ (eol
                                ++ (codes "Content-Type: text/html"
                                    ++ (eol
                                        ++ (codes "Keep-Alive: timeout=5, max=100" ++ eol))))))))))

abbrev pub answer_end : List ℕ
answer_end = codes "Connection" ++ (wide_colon ++ (codes "Close" ++ (eol ++ eol)))

-- `httpServResponeOK`
unfoldable pub respone_ok : ℕ → List ℕ
respone_ok content_len =
    codes "HTTP/1.1 200 OK" ++ (eol ++ (answer_fields content_len ++ answer_end))

abbrev pub not_found_content : List ℕ
not_found_content = codes "404 not found"

-- `httpServResponeNoFound`
unfoldable pub respone_no_found : List ℕ
respone_no_found =
    codes "HTTP/1.1 404 Not Found"
    ++ (eol ++ (answer_fields (length not_found_content) ++ (answer_end ++ not_found_content)))

-- `httpServResponeJumpUrl`
unfoldable pub respone_jump_url : List ℕ → List ℕ
respone_jump_url jump_url =
    codes "HTTP/1.1 302 Found"
    ++ (eol ++ (answer_fields 0 ++ (codes "Location: " ++ (jump_url ++ (eol ++ answer_end)))))

-- the text of `case "/favicon.ico"`
abbrev pub favicon : List ℕ
favicon = 186 ∷ 171 ∷ 209 ∷ 182 ∷ 193 ∷ 170 ∷ 191 ∷ 216 ∷ 188 ∷ 211 ∷ 211 ∷ 205 ∷ 33 ∷ 33 ∷ []

-- `SECTOR_WEBPAGE_1` and `SECTOR_WEBPAGE_2`
abbrev pub sector_webpage_1 : ℕ
sector_webpage_1 = 512

abbrev pub sector_webpage_2 : ℕ
sector_webpage_2 = 514

-- a header and a content, as `webSendHeader` and `webSendClient` are given them
unfoldable pub with_header : List ℕ → List (List ℕ)
with_header content = respone_ok (length content) ∷ content ∷ []

-- the text of a page up to its end in flash, with its header
unfoldable pub send_page : List ℕ → List (List ℕ)
send_page htmldata = with_header (take (text_end htmldata) htmldata)

-- the page in flash; nothing is sent where it cannot be read
unfoldable pub index_page : Option (List ℕ) → List (List ℕ)
index_page none = []
index_page (some htmldata) = send_page htmldata

-- the replacements in the page of data, each in place
unfoldable pub filled_page : CfgData → List ℕ → List ℕ
filled_page cfg html0 =
    let html1 = replace_in html0 (codes "{mqttip}") cfg.mqtt_host in
    let html2 = replace_in html1 (codes "{mqttport}") (decimal cfg.mqtt_port) in
    let html3 = replace_in html2 (codes "{mqttcid}") cfg.mqtt_clientid in
    let html4 = replace_in html3 (codes "{mqttuser}") cfg.mqtt_username in
    let html5 = replace_in html4 (codes "{mqttpasswd}") cfg.mqtt_password in
    let html6 = replace_in html5 (codes "{uart1brt}") (decimal cfg.uart1_baud_rate) in
    let html7 = replace_in html6 (codes "{devuuid}") cfg.devuuid in
    let html8 = replace_in html7 (codes "{devname}") cfg.devname in
    let html9 = replace_in html8 (codes "{devflag}") cfg.devflag in
    replace_in html9 (codes "{tcpserv1}") (decimal cfg.tcpserv1_port)

-- the bytes of a page's two sectors, and of `htmldata`
abbrev pub page_size : ℕ
page_size = 8192

-- the page of data; `none` is a fault, where a replacement has written behind `htmldata`
unfoldable pub info_page : Option (List ℕ) → Option CfgData → Option (List (List ℕ))
info_page none cfg = some []
info_page (some htmldata) none = some []
info_page (some htmldata) (some cfg) =
    let html = filled_page cfg htmldata in
    if leb (length html) page_size then some (send_page html) else none

-- what is sent, with `g_webParameter` after it
abbrev pub sent_as : Option (List ℕ) → List (List ℕ) → Option (List (List ℕ) × Option (List ℕ))
sent_as g sent = some (sent, g)

-- `pfWebServ_Callback`: what is sent, and `g_webParameter` after it; `none` is a fault. `page_data` gives
-- the bytes of a page's sectors.
unfoldable pub pf_web_serv_callback :
    (ℕ → Option (List ℕ))
    → Option CfgData
    → List ℕ
    → List ℕ
    → Option (List (List ℕ) × Option (List ℕ))
pf_web_serv_callback page_data cfg page parameter =
    if bytes_eq (codes "/") page || bytes_eq (codes "/index.htm") page
    then sent_as none (index_page (page_data sector_webpage_1))
    else if bytes_eq (codes "/info.htm") page
    then info_page (page_data sector_webpage_2) cfg >>= sent_as none
    else if bytes_eq (codes "/command") page
    then (let text = until_nul (url_decode parameter) in sent_as (some text) (with_header text))
    else if bytes_eq (codes "/favicon.ico") page
    then sent_as none (with_header favicon)
    else sent_as none (respone_no_found ∷ [])

-- what the device does for a request
pub data WebAction : Type 0 where
  sends : List (List ℕ) → WebAction
  closes : ℕ → WebAction
  commands : List Action → WebAction

-- the outcome of effects: `g_webParameter`, the flash, and what was done; `none` is a fault
abbrev pub Served : Type 0 → Type 0
Served S = Option ((Option (List ℕ) × S) × List WebAction)

module _ {S : Type 0} (flash : Flash S) (page_data : S → ℕ → Option (List ℕ)) where
  -- `pfWebServ_Done`
  unfoldable pub pf_web_serv_done : Option (List ℕ) → S → Served S
  pf_web_serv_done none s = some ((none, s), [])
  pf_web_serv_done (some text) s =
      do_command flash (c_str text) s >>= λ (s', did). some ((some text, s'), commands did ∷ [])

  -- one effect of the web server, with the two callbacks that `app_main` installs
  unfoldable pub web_effect : Option (List ℕ) → S → WebEffect → Served S
  web_effect g s (close fd) = some ((g, s), closes fd ∷ [])
  web_effect g s (callback page parameter) =
      pf_web_serv_callback (page_data s) (flash.read_cfg s) page parameter >>= λ (sent, g').
      some ((g', s), sends sent ∷ [])
  web_effect g s (done_callback page) = pf_web_serv_done g s

  unfoldable pub web_effects : Option (List ℕ) → S → List WebEffect → Served S
  web_effects g s [] = some ((g, s), [])
  web_effects g s (e ∷ es) = do
    ((g1, s1), did) ← web_effect g s e
    ((g2, s2), more) ← web_effects g1 s1 es
    some ((g2, s2), did ++ more)
