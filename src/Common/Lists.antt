-- ===== src/Common/Lists.antt =====
-- Lists measured by native numbers, and sums of weights over them.
use Prim.Native.Nat.{ℕ, zero, suc, ◌+◌, ◌-◌, ◌≤◌, ◌<◌}
use mathlib.Core.Option.{Option, none, some}
use mathlib.Core.Path.{◌≡◌, refl, sym, ap, ◌∙◌}
use mathlib.Core.List.{List, [], ◌∷◌, ◌++◌}
use native.Mathlib.Omega.{arith}

module _ {ℓ} {A : Type ℓ} where
  abbrev pub length : List A → ℕ
  length [] = 0
  length (x ∷ xs) = suc (length xs)

  -- The sum of the weights of the entries.
  unfoldable pub total : (A → ℕ) → List A → ℕ
  total f [] = 0
  total f (x ∷ xs) = f x + total f xs

  pub total-append : (f : A → ℕ) (xs ys : List A) → total f (xs ++ ys) ≡ total f xs + total f ys
  unfolding total
  total-append f [] ys = omega arith
  total-append f (x ∷ xs) ys = omega (arith, total-append f xs ys)

  unfoldable pub take : ℕ → List A → List A
  take zero xs = []
  take (suc n) [] = []
  take (suc n) (x ∷ xs) = x ∷ take n xs

  pub take-all : (xs : List A) → take (length xs) xs ≡ xs
  unfolding take
  take-all [] = refl
  take-all (x ∷ xs) = ap (◌∷◌ x) (take-all xs)

  pub take-empty : (n : ℕ) (xs : List A) → length xs ≡ 0 → take n xs ≡ []
  unfolding take
  take-empty zero xs h = refl
  take-empty (suc n) [] h = refl
  take-empty (suc n) (x ∷ xs) h = absurd (omega arith)

  pub length-take : (n : ℕ) (xs : List A) → n ≤ length xs → length (take n xs) ≡ n
  unfolding take
  length-take zero xs h = refl
  length-take (suc n) [] h = omega arith
  length-take (suc n) (x ∷ xs) h = omega (arith, length-take n xs)

  pub take-take : (m n : ℕ) (xs : List A) → m ≤ n → take m (take n xs) ≡ take m xs
  unfolding take
  take-take zero n xs h = refl
  take-take (suc m) zero xs h = absurd (omega arith)
  take-take (suc m) (suc n) [] h = refl
  take-take (suc m) (suc n) (x ∷ xs) h = ap (◌∷◌ x) (take-take m n xs (omega arith))

  unfoldable pub drop : ℕ → List A → List A
  drop zero xs = xs
  drop (suc n) [] = []
  drop (suc n) (x ∷ xs) = drop n xs

  pub append_assoc : (xs ys zs : List A) → (xs ++ ys) ++ zs ≡ xs ++ (ys ++ zs)
  append_assoc [] ys zs = refl
  append_assoc (x ∷ xs) ys zs = ap (◌∷◌ x) (append_assoc xs ys zs)

  pub length-append : (xs ys : List A) → length (xs ++ ys) ≡ length xs + length ys
  length-append [] ys = omega arith
  length-append (x ∷ xs) ys = omega (arith, length-append xs ys)

  pub take-append : (n : ℕ) (xs ys : List A) → length xs ≡ n → take n (xs ++ ys) ≡ xs
  unfolding take
  take-append zero [] ys h = refl
  take-append (suc n) [] ys h = absurd (omega arith)
  take-append zero (x ∷ xs) ys h = absurd (omega arith)
  take-append (suc n) (x ∷ xs) ys h = ap (◌∷◌ x) (take-append n xs ys (omega arith))

  pub length-drop : (n : ℕ) (xs : List A) → length (drop n xs) ≡ length xs - n
  unfolding drop
  length-drop zero xs = omega arith
  length-drop (suc n) [] = omega arith
  length-drop (suc n) (x ∷ xs) = length-drop n xs ∙ omega arith

  -- Within the first of two lists.
  pub take-within : (n : ℕ) (xs ys : List A) → n ≤ length xs → take n (xs ++ ys) ≡ take n xs
  unfolding take
  take-within zero xs ys h = refl
  take-within (suc n) [] ys h = absurd (omega arith)
  take-within (suc n) (x ∷ xs) ys h = ap (◌∷◌ x) (take-within n xs ys (omega arith))

  pub drop-within : (n : ℕ) (xs ys : List A) → n ≤ length xs → drop n (xs ++ ys) ≡ drop n xs ++ ys
  unfolding drop
  drop-within zero xs ys h = refl
  drop-within (suc n) [] ys h = absurd (omega arith)
  drop-within (suc n) (x ∷ xs) ys h = drop-within n xs ys (omega arith)

  pub drop-append : (n : ℕ) (xs ys : List A) → length xs ≡ n → drop n (xs ++ ys) ≡ ys
  unfolding drop
  drop-append zero [] ys h = refl
  drop-append (suc n) [] ys h = absurd (omega arith)
  drop-append zero (x ∷ xs) ys h = absurd (omega arith)
  drop-append (suc n) (x ∷ xs) ys h = drop-append n xs ys (omega arith)

  drop-empty : (n : ℕ) → drop n [] ≡ []
  unfolding drop
  drop-empty zero = refl
  drop-empty (suc n) = refl

  pub drop-drop : (m n : ℕ) (xs : List A) → drop m (drop n xs) ≡ drop (n + m) xs
  unfolding drop
  drop-drop m zero xs = let e : m ≡ 0 + m = omega arith in ap (λ k. drop k xs) e
  drop-drop m (suc n) [] = drop-empty m ∙ sym (drop-empty (suc n + m))
  drop-drop m (suc n) (x ∷ xs) =
      let e : suc (n + m) ≡ suc n + m = omega arith in
      drop-drop m n xs ∙ ap (λ k. drop k (x ∷ xs)) e

  pub drop-take : (n m : ℕ) (xs : List A) → drop n (take m xs) ≡ take (m - n) (drop n xs)
  unfolding drop take
  drop-take zero m xs = let e : m ≡ m - 0 = omega arith in ap (λ k. take k xs) e
  drop-take (suc n) zero xs =
      let e : 0 ≡ 0 - suc n = omega arith in ap (λ k. take k (drop (suc n) xs)) e
  drop-take (suc n) (suc m) [] = sym (take-empty (suc m - suc n) [] refl)
  drop-take (suc n) (suc m) (x ∷ xs) =
      let e : m - n ≡ suc m - suc n = omega arith in
      drop-take n m xs ∙ ap (λ k. take k (drop n xs)) e

  unfoldable pub get_elem? : List A → ℕ → Option A
  get_elem? [] i = none
  get_elem? (x ∷ xs) zero = some x
  get_elem? (x ∷ xs) (suc i) = get_elem? xs i

  -- Out of range nothing is written.
  unfoldable pub set_elem : ℕ → A → List A → List A
  set_elem i v [] = []
  set_elem zero v (x ∷ xs) = v ∷ xs
  set_elem (suc i) v (x ∷ xs) = x ∷ set_elem i v xs

  pub length-set_elem : (i : ℕ) (v : A) (xs : List A) → length (set_elem i v xs) ≡ length xs
  unfolding set_elem
  length-set_elem i v [] = refl
  length-set_elem zero v (x ∷ xs) = refl
  length-set_elem (suc i) v (x ∷ xs) = ap suc (length-set_elem i v xs)

  -- A place that has the value keeps it when the value is written anywhere.
  pub set_elem-keeps :
      (i k : ℕ) (v : A) (xs : List A)
      → get_elem? xs k ≡ some v
      → get_elem? (set_elem i v xs) k ≡ some v
  unfolding get_elem? set_elem
  set_elem-keeps i k v [] h = h
  set_elem-keeps zero zero v (x ∷ xs) h = refl
  set_elem-keeps zero (suc k) v (x ∷ xs) h = h
  set_elem-keeps (suc i) zero v (x ∷ xs) h = h
  set_elem-keeps (suc i) (suc k) v (x ∷ xs) h = set_elem-keeps i k v xs h

  pub set_elem-same :
      (i : ℕ) (v : A) (xs : List A) → i < length xs → get_elem? (set_elem i v xs) i ≡ some v
  unfolding get_elem? set_elem
  set_elem-same i v [] h = absurd (omega arith)
  set_elem-same zero v (x ∷ xs) h = refl
  set_elem-same (suc i) v (x ∷ xs) h = set_elem-same i v xs (omega arith)

  -- A place in range has a value.
  pub get_elem?-some : (xs : List A) (i : ℕ) → i < length xs → (x : A) × (get_elem? xs i ≡ some x)
  unfolding get_elem?
  get_elem?-some [] i h = absurd (omega arith)
  get_elem?-some (x ∷ xs) zero h = (x, refl)
  get_elem?-some (x ∷ xs) (suc i) h = get_elem?-some xs i (omega arith)

  -- A place within the part that is taken.
  pub get_elem?-take : (n k : ℕ) (xs : List A) → k < n → get_elem? (take n xs) k ≡ get_elem? xs k
  unfolding get_elem? take
  get_elem?-take zero k xs h = absurd (omega arith)
  get_elem?-take (suc n) k [] h = refl
  get_elem?-take (suc n) zero (x ∷ xs) h = refl
  get_elem?-take (suc n) (suc k) (x ∷ xs) h = get_elem?-take n k xs (omega arith)

  pub get_elem?-same :
      (n k : ℕ) (xs ys : List A) → take n xs ≡ take n ys → k < n → get_elem? xs k ≡ get_elem? ys k
  get_elem?-same n k xs ys e h =
      sym (get_elem?-take n k xs h) ∙ ap (λ zs. get_elem? zs k) e ∙ get_elem?-take n k ys h

  -- A write behind the bytes that are taken, and one before those that are left.
  pub take-set_elem : (n i : ℕ) (v : A) (xs : List A) → n ≤ i → take n (set_elem i v xs) ≡ take n xs
  unfolding take set_elem
  take-set_elem zero i v xs h = refl
  take-set_elem (suc n) i v [] h = refl
  take-set_elem (suc n) zero v (x ∷ xs) h = absurd (omega arith)
  take-set_elem (suc n) (suc i) v (x ∷ xs) h = ap (◌∷◌ x) (take-set_elem n i v xs (omega arith))

  pub drop-set_elem : (n i : ℕ) (v : A) (xs : List A) → i < n → drop n (set_elem i v xs) ≡ drop n xs
  unfolding drop set_elem
  drop-set_elem zero i v xs h = absurd (omega arith)
  drop-set_elem (suc n) i v [] h = refl
  drop-set_elem (suc n) zero v (x ∷ xs) h = refl
  drop-set_elem (suc n) (suc i) v (x ∷ xs) h = drop-set_elem n i v xs (omega arith)
