-- ===== src/HttpClient/Size.antt =====
-- What zhHttpSize tells the callback.
use esp32base.Base.{ℕ, suc, ◌+◌, ◌≤◌, ◌≡◌, some, List, [], ◌∷◌, ◌++◌, length, All, Piece, bytes_of}
use esp32base.HttpClient.{
  HttpOperat, finish, get_size, SockRecv, Stage, ended, head_end, content_length,
}
use esp32base.HttpClient.Thread.{size_steps}

-- the answer to a HEAD request: a header that ends in a blank line and gives a length, of which the
-- cache holds the first part, in pieces that fit the cache behind it
record HeadAnswer (head rest : List ℕ) (total : ℕ) (cache : List ℕ) (ps : List Piece) : Type 0 where
  ends : head_end (head ++ rest) 0 ≡ some (length head)
  gives : (more : List ℕ) → content_length (head ++ more) ≡ some total
  stream : cache ++ bytes_of ps ≡ head ++ rest
  small : All (λ p. length head + suc (length p.1) ≤ 1040) ps

abbrev told : ℕ → Stage × List HttpOperat
told total = (ended, get_size total ∷ finish ∷ [])

-- a step, and the rest of the run
abbrev and_then : Stage × List HttpOperat → List SockRecv → Stage × List HttpOperat
and_then (stage, out) rs = let (stage2, more) = size_steps stage rs in (stage2, out ++ more)
