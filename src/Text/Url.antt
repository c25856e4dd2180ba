-- ===== src/Text/Url.antt =====
-- The URL splitters.
use esp32base.Base.{
  ℕ, ◌≡◌, refl, Bool, true, false, some, List, [], ◌∷◌, ◌++◌, All, ◌==◌, starts_with, codes,
}
use esp32base.Text.{
  split_file, split_parm, url_split, span, atoi_from, stops_host, stops_port, stops_file, http_tail,
  http_url_split,
}

abbrev pub IsNoQuestion : ℕ → Type 0
IsNoQuestion c = (c == b'?') ≡ false

-- A URL with a question mark is split at the first one.
pub url_split-question :
    (behind file parm : List ℕ)
    → All IsNoQuestion file
    → url_split behind (file ++ b'?' ∷ parm) ≡ (file, parm)
unfolding url_split split_file split_parm
url_split-question behind [] parm h = refl
url_split-question behind (c ∷ file) parm h =
    let ih = url_split-question behind file parm h.1 in rw h.0 (λ i. (c ∷ (ih i).0, (ih i).1))

-- A URL without one is all file, and the parameters are what lies in memory behind the URL's NUL.
pub url_split-no_question :
    (behind file : List ℕ) → All IsNoQuestion file → url_split behind file ≡ (file, behind)
unfolding url_split split_file split_parm
url_split-no_question behind [] h = refl
url_split-no_question behind (c ∷ file) h =
    let ih = url_split-no_question behind file h.1 in rw h.0 (λ i. (c ∷ (ih i).0, (ih i).1))

span-stop :
    (stop : ℕ → Bool) (s rest : List ℕ) (c : ℕ)
    → All (λ x. stop x ≡ false) s
    → stop c ≡ true
    → span stop (s ++ c ∷ rest) ≡ (s, c ∷ rest)
unfolding span
span-stop stop [] rest c h k = rw k
span-stop stop (x ∷ s) rest c h k =
    let ih = span-stop stop s rest c h.1 k in rw h.0 (λ i. (x ∷ (ih i).0, (ih i).1))

-- "http://", a host, a colon, a port, a path that begins with a slash, a question mark and the
-- parameters: the five are taken apart at these marks, and the port is the value of its digits.
pub http_url_split-full :
    (host port path parm : List ℕ)
    → All (λ c. stops_host c ≡ false) host
    → All (λ c. stops_port c ≡ false) port
    → All (λ c. stops_file c ≡ false) path
    → http_url_split (codes "http://" ++ (host ++ b':' ∷ (port ++ b'/' ∷ (path ++ b'?' ∷ parm))))
      ≡ some (record { host = host; port = atoi_from 0 port; file = b'/' ∷ path; parm = parm })
unfolding http_url_split http_tail starts_with
http_url_split-full host port path parm h p f = rw (
  span-stop stops_host host _ b':' h refl,
  span-stop stops_port port _ b'/' p refl,
  span-stop stops_file (b'/' ∷ path) parm b'?' (refl, f) refl,
)

-- Without a port it is 80.
pub http_url_split-default :
    (host path parm : List ℕ)
    → All (λ c. stops_host c ≡ false) host
    → All (λ c. stops_file c ≡ false) path
    → http_url_split (codes "http://" ++ (host ++ b'/' ∷ (path ++ b'?' ∷ parm)))
      ≡ some (record { host = host; port = 80; file = b'/' ∷ path; parm = parm })
unfolding http_url_split http_tail starts_with
http_url_split-default host path parm h f = rw (
  span-stop stops_host host _ b'/' h refl,
  span-stop stops_file (b'/' ∷ path) parm b'?' (refl, f) refl,
)
