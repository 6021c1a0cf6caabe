-- ===== src/Base/Ink.antt =====
-- A text with a character that is no white space is not empty when it is stripped.
use Prim.Native.Char.{code}
use Prim.Native.String.{String, [], ◌∷◌}
use Prim.Native.String
use text.Mathlib.TextLemmas.{nil-append, cons-append}
use mathlib.Core.Path.{◌≡◌, refl}
use mathlib.Core.Logic.{◌⊎◌, inl, inr}
use mathlib.Core.Bool.{false}
use beacn.Base.Tests.{Bool-cases}
use beacn.Base.Text.{is_empty}
use beacn.Base.Strip.{is_space, strip_left, strip_right, strip}

abbrev pub HasInk : String → Type 0
HasInk [] = ⊥
HasInk (c ∷ s) = (is_space (code c) ≡ false) ⊎ HasInk s

pub HasInk-append : (s t : String) → HasInk t → HasInk (String.◌++◌ s t)
HasInk-append [] t h = rw nil-append h
HasInk-append (c ∷ s) t h = rw cons-append (inr (HasInk-append s t h))

pub HasInk-full : (s : String) → HasInk s → is_empty s ≡ false
HasInk-full [] h = absurd h
HasInk-full (c ∷ s) h = refl

strip_right-HasInk : (s : String) → HasInk s → HasInk (strip_right s)
unfolding strip_right
strip_right-HasInk [] h = absurd h
strip_right-HasInk (c ∷ s) (inl ink) = elim (Bool-cases (is_empty (strip_right s))) [
  | inl bare ↦ rw (bare, ink) (inl ink)
  | inr full ↦ rw full (inl ink)
]
strip_right-HasInk (c ∷ s) (inr more) =
    let kept = strip_right-HasInk s more in rw (HasInk-full (strip_right s) kept) (inr kept)

strip_left-full : (s : String) → HasInk s → is_empty (strip_left s) ≡ false
unfolding strip_left
strip_left-full [] h = absurd h
strip_left-full (c ∷ s) (inl ink) = rw ink refl
strip_left-full (c ∷ s) (inr more) = elim (Bool-cases (is_space (code c))) [
  | inl blank ↦ rw blank (strip_left-full s more)
  | inr ink ↦ rw ink refl
]

pub strip-full : (s : String) → HasInk s → is_empty (strip s) ≡ false
unfolding strip
strip-full s h = strip_left-full (strip_right s) (strip_right-HasInk s h)
