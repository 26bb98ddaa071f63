-- ===== src/Http/Chunks/Parts.antt =====
-- The parts of a body in a memory that changes behind them (http_context.h).
use mathlib.Core.List.{reverse, reverse-append, append-nil}
use network_pool.Common.{
  ℕ, ◌+◌, ◌-◌, ◌≤◌, ◌≡◌, refl, sym, ap, ◌∙◌, List, [], ◌∷◌, ◌++◌, arith, take, drop, take-take,
  drop-take, append_assoc,
}
use network_pool.Http.{HttpContext, bytes}
use network_pool.Http.Content.Merge.{merged}
use network_pool.Http.Parts.{AreApart}

-- What the parts of the body are in the memory.
abbrev pub body : HttpContext → List ℕ
body c = merged (reverse c.chunks) (bytes c)

merged-append :
    (cs ds : List (ℕ × ℕ)) (xs : List ℕ) → merged (cs ++ ds) xs ≡ merged cs xs ++ merged ds xs
unfolding merged
merged-append [] ds xs = refl
merged-append ((start, n) ∷ cs) ds xs =
    ap (◌++◌ (take n (drop start xs))) (merged-append cs ds xs)
    ∙ sym (append_assoc (take n (drop start xs)) (merged cs xs) (merged ds xs))

pub merged-newest :
    (start n : ℕ) (cs : List (ℕ × ℕ)) (xs : List ℕ)
    → merged (reverse ((start, n) ∷ cs)) xs ≡ merged (reverse cs) xs ++ take n (drop start xs)
unfolding merged
merged-newest start n cs xs =
    ap (λ r. merged r xs) (reverse-append ((start, n) ∷ []) cs)
    ∙ merged-append (reverse cs) ((start, n) ∷ []) xs
    ∙ ap (◌++◌ (merged (reverse cs) xs)) (append-nil (take n (drop start xs)))

fewer : (j i : ℕ) (xs ys : List ℕ) → j ≤ i → take i xs ≡ take i ys → take j xs ≡ take j ys
fewer j i xs ys le e = sym (take-take j i xs le) ∙ ap (take j) e ∙ take-take j i ys le

part :
    (start n : ℕ) (xs ys : List ℕ)
    → take (start + n) xs ≡ take (start + n) ys
    → take n (drop start xs) ≡ take n (drop start ys)
part start n xs ys e =
    let m : n ≡ start + n - start = omega arith in
    ap (λ k. take k (drop start xs)) m
    ∙ sym (drop-take start (start + n) xs)
    ∙ ap (drop start) e
    ∙ drop-take start (start + n) ys
    ∙ ap (λ k. take k (drop start ys)) (sym m)

-- Parts before a place depend on the bytes before it only.
pub merged-same :
    (i : ℕ) (cs : List (ℕ × ℕ)) (xs ys : List ℕ)
    → AreApart i cs
    → take i xs ≡ take i ys
    → merged (reverse cs) xs ≡ merged (reverse cs) ys
unfolding merged
merged-same i [] xs ys h e = refl
merged-same i ((start, n) ∷ cs) xs ys h e =
    merged-newest start n cs xs
    ∙ ap (λ r. r ++ take n (drop start xs))
        (merged-same start cs xs ys h.1 (fewer start i xs ys (omega (arith, h.0)) e))
    ∙ ap (◌++◌ (merged (reverse cs) ys)) (part start n xs ys (fewer (start + n) i xs ys h.0 e))
    ∙ sym (merged-newest start n cs ys)
