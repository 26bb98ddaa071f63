-- ===== src/Http/Content/Fields.antt =====
-- The lines of a header as they are written (http_context.h): fields and other lines, and the blanks
-- around a name and a value.
pub mod Reading
use mathlib.Core.List.{reverse, reverse-append, reverse-reverse, append-nil}
use network_pool.Common.{
  ℕ, ◌≤◌, ◌<◌, ◌≡◌, ◌≢◌, ◌⊎◌, inl, inr, refl, sym, ap, ◌∙◌, true, false, List, [], ◌∷◌, ◌++◌, arith,
}
use network_pool.Http.Content.Info.{Lacks}
use network_pool.Http.Text.{is_space, skip_spaces, trim_end}

-- A space, or one of the control characters from tab to return.
abbrev pub Blank : ℕ → Type 0
Blank c = (c ≡ 32) ⊎ ((9 ≤ c) × (c ≤ 13))

abbrev pub Solid : ℕ → Type 0
Solid c = (c ≢ 32) × ((c < 9) ⊎ (13 < c))

abbrev pub AreBlank : List ℕ → Type 0
AreBlank [] = Unit
AreBlank (c ∷ cs) = Blank c × AreBlank cs

abbrev pub Starts : List ℕ → Type 0
Starts [] = ⊥
Starts (c ∷ cs) = Solid c

-- A text that neither starts nor ends with a blank, and is not empty.
abbrev pub IsWord : List ℕ → Type 0
IsWord cs = Starts cs × Starts (reverse cs)

-- A field of a header: a name and a value, with blanks before and behind each of them.
pub record Field : Type 0 where
  pub name : List ℕ
  pub value : List ℕ
  pub before_name : List ℕ
  pub after_name : List ℕ
  pub before_value : List ℕ
  pub after_value : List ℕ

-- The name has no colon and no null.
pub record IsField (f : Field) : Type 0 where
  pub name : IsWord f.name
  pub value : IsWord f.value
  pub named : Lacks 58 (f.name ++ f.after_name)
  pub blank : AreBlank f.before_name × AreBlank f.after_name
  pub blanks : AreBlank f.before_value × AreBlank f.after_value

abbrev pub written : Field → List ℕ
written f =
    f.before_name
    ++ ((f.name ++ f.after_name) ++ 58 ∷ (f.before_value ++ (f.value ++ f.after_value)))

-- The names and the values of the fields among the texts; the other texts have no colon, no name
-- before it, or no value behind it.
pub data Lists : List (List ℕ) → List (List ℕ × List ℕ) → Type 0 where
  nothing : Lists [] []
  field :
      (f : Field) (css : List (List ℕ)) (ps : List (List ℕ × List ℕ))
      → IsField f
      → Lists css ps
      → Lists (written f ∷ css) ((f.name, f.value) ∷ ps)
  no_colon :
      (cs : List ℕ) (css : List (List ℕ)) (ps : List (List ℕ × List ℕ))
      → Lacks 58 cs
      → Lists css ps
      → Lists (cs ∷ css) ps
  no_name :
      (before after : List ℕ) (css : List (List ℕ)) (ps : List (List ℕ × List ℕ))
      → AreBlank before
      → Lists css ps
      → Lists ((before ++ 58 ∷ after) ∷ css) ps
  no_value :
      (before after : List ℕ) (css : List (List ℕ)) (ps : List (List ℕ × List ℕ))
      → Lacks 58 before
      → AreBlank after
      → Lists css ps
      → Lists ((before ++ 58 ∷ after) ∷ css) ps

is_space-Blank : (c : ℕ) → Blank c → is_space c ≡ true
unfolding is_space
is_space-Blank c (inl e) = ground arith
is_space-Blank c (inr (h, k)) = ground arith

is_space-Solid : (c : ℕ) → Solid c → is_space c ≡ false
unfolding is_space
is_space-Solid c (n, inl h) = ground arith
is_space-Solid c (n, inr h) = ground arith

pub skip_spaces-AreBlank : (bs cs : List ℕ) → AreBlank bs → skip_spaces (bs ++ cs) ≡ skip_spaces cs
unfolding skip_spaces
skip_spaces-AreBlank [] cs h = refl
skip_spaces-AreBlank (b ∷ bs) cs h =
    rw (skip_spaces, is_space-Blank b h.0) (skip_spaces-AreBlank bs cs h.1)

pub skip_spaces-Starts : (cs ds : List ℕ) → Starts cs → skip_spaces (cs ++ ds) ≡ cs ++ ds
unfolding skip_spaces
skip_spaces-Starts [] ds h = absurd h
skip_spaces-Starts (c ∷ cs) ds h = rw (skip_spaces, is_space-Solid c h) refl

AreBlank-append : (bs cs : List ℕ) → AreBlank bs → AreBlank cs → AreBlank (bs ++ cs)
AreBlank-append [] cs h k = k
AreBlank-append (b ∷ bs) cs h k = (h.0, AreBlank-append bs cs h.1 k)

AreBlank-reverse : (bs : List ℕ) → AreBlank bs → AreBlank (reverse bs)
AreBlank-reverse [] h = tt
AreBlank-reverse (b ∷ bs) h =
    rw (reverse-append (b ∷ []) bs)
      (AreBlank-append (reverse bs) (b ∷ []) (AreBlank-reverse bs h.1) (h.0, tt))

pub trim_end-IsWord : (cs bs : List ℕ) → IsWord cs → AreBlank bs → trim_end (cs ++ bs) ≡ cs
unfolding trim_end
trim_end-IsWord cs bs w h =
    ap (λ xs. reverse (skip_spaces xs)) (reverse-append cs bs)
    ∙ ap reverse (skip_spaces-AreBlank (reverse bs) (reverse cs) (AreBlank-reverse bs h))
    ∙ ap (λ xs. reverse (skip_spaces xs)) (sym (append-nil (reverse cs)))
    ∙ ap reverse (skip_spaces-Starts (reverse cs) [] w.1)
    ∙ ap reverse (append-nil (reverse cs))
    ∙ reverse-reverse cs
