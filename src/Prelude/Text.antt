-- ===== src/Prelude/Text.antt =====
-- C strings as their bytes, with the comparisons of string.h.
use Prim.Native.Nat.{ℕ}
use Prim.Native.Char.{code}
use Prim.Native.String.{String}
use mathlib.Core.Path.{◌≡◌, refl}
use mathlib.Core.Logic.{◌⊎◌, inl, inr}
use mathlib.Core.Bool.{Bool, true, false, ◌&&◌}
use mathlib.Core.Option.{Option, none, some}
use mathlib.Core.List.{List, [], ◌∷◌, ◌++◌}
use native.Mathlib.Omega.{arith}
use virtual_trezor.Prelude.Tests.{◌==◌, if◌then◌else◌, Option-cases}

abbrev pub Text : Type 0
Text = List ℕ

-- The bytes of an ASCII literal.
abbrev pub codes : String → Text
codes String.[] = []
codes (String.◌∷◌ c s) = code c ∷ codes s

-- strcmp (a, b) == 0
unfoldable pub text_eq : Text → Text → Bool
text_eq [] [] = true
text_eq (a ∷ s) (b ∷ t) = a == b && text_eq s t
text_eq _ _ = false

-- The rest of a text behind a prefix, where strncmp (text, prefix, strlen (prefix)) == 0.
unfoldable pub strip_prefix : Text → Text → Option Text
strip_prefix [] text = some text
strip_prefix (p ∷ ps) [] = none
strip_prefix (p ∷ ps) (c ∷ text) = let rest = strip_prefix ps text in if p == c then rest else none

pub text_eq_refl : (s : Text) → text_eq s s ≡ true
unfolding text_eq
text_eq_refl [] = refl
text_eq_refl (a ∷ s) = ground (arith, text_eq_refl s)

pub text_eq→eq : (s t : Text) → text_eq s t ≡ true → s ≡ t
unfolding text_eq
text_eq→eq [] [] h = refl
text_eq→eq [] (b ∷ t) h = cc
text_eq→eq (a ∷ s) [] h = cc
text_eq→eq (a ∷ s) (b ∷ t) h = ground (arith, text_eq→eq s t)

pub strip_prefix-append : (p text : Text) → strip_prefix p (p ++ text) ≡ some text
unfolding strip_prefix
strip_prefix-append [] text = refl
strip_prefix-append (c ∷ p) text = ground (arith, strip_prefix-append p text)

pub strip_prefix→eq : (p text rest : Text) → strip_prefix p text ≡ some rest → text ≡ p ++ rest
unfolding strip_prefix
strip_prefix→eq [] text rest h = ground arith
strip_prefix→eq (c ∷ p) [] rest h = cc
strip_prefix→eq (c ∷ p) (a ∷ text) rest h = ground (arith, strip_prefix→eq p text rest)

pub strip_prefix-cases :
    (p text : Text)
    → (strip_prefix p text ≡ none)
      ⊎ ((rest : Text) × (strip_prefix p text ≡ some rest) × (text ≡ p ++ rest))
strip_prefix-cases p text = elim (Option-cases (strip_prefix p text)) [
  | inl e ↦ inl e
  | inr (rest, e) ↦ inr (rest, e, strip_prefix→eq p text rest e)
]
