-- ===== src/Stream/Blit.antt =====
-- Pieces copied into a buffer, one behind the other.
use esp32base.Base.{
  ℕ, zero, suc, ◌+◌, ◌≤◌, ◌≡◌, refl, sym, ap, ap₂, ◌∙◌, List, [], ◌∷◌, ◌++◌, append_assoc, arith,
  length, length-append, length-take, take, drop, take-append_length,
}
use esp32base.Stream.{blit}

drop-nil : (m : ℕ) (xs : List ℕ) → xs ≡ [] → drop m xs ≡ []
drop-nil zero xs e = e
drop-nil (suc m) xs e = rw e

drop-drop : (m n k : ℕ) (xs : List ℕ) → k ≡ n + m → drop m (drop n xs) ≡ drop k xs
drop-drop m zero k xs e = ap (λ t. drop t xs) (omega arith)
drop-drop m (suc n) k [] e = drop-nil m [] refl ∙ sym (drop-nil k [] refl)
drop-drop m (suc n) zero (x ∷ xs) e = absurd (omega arith)
drop-drop m (suc n) (suc k) (x ∷ xs) e = drop-drop m n k xs (omega arith)

drop-past : (xs ys : List ℕ) (m k : ℕ) → k ≡ length xs + m → drop k (xs ++ ys) ≡ drop m ys
drop-past [] ys m k e = ap (λ t. drop t ys) (omega arith)
drop-past (x ∷ xs) ys m zero e = absurd (omega arith)
drop-past (x ∷ xs) ys m (suc k) e = drop-past xs ys m k (omega arith)

take-at : (xs ys : List ℕ) (k : ℕ) → k ≡ length xs → take k (xs ++ ys) ≡ xs
take-at xs ys k e = ap (λ t. take t (xs ++ ys)) e ∙ take-append_length xs ys

-- two writes in a row are one
pub blit-blit :
    (buf a b : List ℕ) (n : ℕ)
    → n ≤ length buf
    → blit (blit buf n a) (n + length a) b ≡ blit buf n (a ++ b)
blit-blit buf a b n h =
    let front = take n buf ++ a in
    let behind = drop (n + length a) buf in
    let size = length-append (take n buf) a in
    let kept = length-take n buf h in
    let both = length-append a b in
    let regroup : blit buf n a ≡ front ++ behind = sym (append_assoc (take n buf) a behind) in
    let left : take (n + length a) (front ++ behind) ≡ front =
      take-at front behind _ (omega arith) in
    let right : drop (n + length a + length b) (front ++ behind) ≡ drop (n + length (a ++ b)) buf =
      drop-past front behind (length b) _ (omega arith)
      ∙ drop-drop (length b) (n + length a) _ buf (omega arith) in
    ap (λ t. blit t (n + length a) b) regroup
    ∙ ap₂ (λ s t. s ++ (b ++ t)) left right
    ∙ append_assoc (take n buf) a (b ++ drop (n + length (a ++ b)) buf)
    ∙ ap (λ t. take n buf ++ t) (sym (append_assoc a b (drop (n + length (a ++ b)) buf)))
