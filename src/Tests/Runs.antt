-- ===== src/Tests/Runs.antt =====
-- Whole runs of the tasks, and the page of data, at concrete inputs.
use esp32base.Base.{some, ℕ, List, [], ◌∷◌, codes, Piece}
use esp32base.HxTcp.{Attempt}
use esp32base.HttpClient.{HttpThread, connected, received, failed}
use esp32base.HttpClient.Thread.{zh_sock_connect, http_thread_data}
use esp32base.HttpClient.Callbacks.{IsRun, http_thread_data-IsRun}

abbrev client : HttpThread
client = record {
  method = 1;
  url = record { host = codes "h"; port = 80; file = codes "/x"; parm = codes "y" };
  body = [];
  begin_byte = 0;
}

http_thread_data-IsRun_example : IsRun (zh_sock_connect (codes "h") 80 (some Attempt.connected)) (
    http_thread_data client (some Attempt.connected) [] (received 65 (codes "\n\nB") ∷ failed ∷ []))
http_thread_data-IsRun_example =
    http_thread_data-IsRun client (some Attempt.connected) []
      (received 65 (codes "\n\nB") ∷ failed ∷ [])

abbrev page_url : List ℕ
page_url = codes "http://h/x"

abbrev answer : List ℕ
answer = codes "OK\nContent-Length: 27\n\n"

abbrev answer_pieces : List Piece
answer_pieces = (79, codes "K\nContent-") ∷ (76, codes "ength: 27\n\nh") ∷ []
