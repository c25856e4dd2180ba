-- ===== src/Tests/Client.antt =====
-- The HTTP client at concrete inputs.
use esp32base.Base.{until_nul, ℕ, ◌≡◌, inr, refl, List, [], ◌∷◌, arith, codes, Piece, starts_with}
use esp32base.Text.{atoi, atoi_from, signed_from}
use esp32base.HttpClient.{
  HttpThread, in_head, head_end, content_length, http_get_protocol_value, strstr, to_colon,
  skip_blanks, to_line_end, data_steps,
}
use esp32base.HttpClient.Download.{data_of, arriving, data_steps-delivers}

abbrev head : List ℕ
head = codes "OK\nContent-Length: 2\n\n"

abbrev pieces : List Piece
pieces = (79, codes "K\nContent-") ∷ (76, codes "ength: 2\n\nh") ∷ (105, []) ∷ []

data_steps-delivers_example : data_of (data_steps (in_head []) (arriving pieces)).1 ≡ codes "hi"
data_steps-delivers_example =
    data_steps-delivers head (codes "hi") 2 pieces (unfold head_end starts_with in refl)
      (λ w more e.
        unfold content_length until_nul http_get_protocol_value strstr to_colon skip_blanks
          to_line_end atoi atoi_from signed_from starts_with in
        refl)
      (inr (omega arith)) refl (omega arith, (omega arith, (omega arith, tt)))

abbrev client : HttpThread
client = record {
  method = 1;
  url = record { host = codes "h"; port = 80; file = codes "/x"; parm = codes "y" };
  body = [];
  begin_byte = 0;
}
