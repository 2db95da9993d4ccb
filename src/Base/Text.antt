-- ===== src/Base/Text.antt =====
-- Python's `str` as the list of its code points, with the methods that the program calls.
use Prim.Native.Nat.{ℕ}
use Prim.Native.Char.{code}
use Prim.Native.String.{String}
use mathlib.Core.Path.{◌≡◌, refl, ap}
use mathlib.Core.Logic.{◌↔◌}
use mathlib.Core.Bool.{Bool, true, false, not, ◌&&◌, ◌||◌}
use mathlib.Core.List.{List, [], ◌∷◌}
use native.Mathlib.Omega.{arith}
use enterprise_support_agent.Base.Tests.{leb, ◌==◌}
use enterprise_support_agent.Base.Lists.{is_empty, all}

abbrev pub Text : Type 0
Text = List ℕ

-- A text literal.
abbrev pub lit : String → Text
lit String.[] = []
lit (String.◌∷◌ c s) = code c ∷ lit s

-- `a == b`
unfoldable pub text_eq : Text → Text → Bool
text_eq [] [] = true
text_eq [] (d ∷ t) = false
text_eq (c ∷ s) [] = false
text_eq (c ∷ s) (d ∷ t) = c == d && text_eq s t

pub text_eq_iff : (s t : Text) → (text_eq s t ≡ true) ↔ (s ≡ t)
unfolding text_eq
text_eq_iff [] [] = (λ _. refl, λ _. refl)
text_eq_iff [] (d ∷ t) = (λ h. cc, λ h. cc)
text_eq_iff (c ∷ s) [] = (λ h. cc, λ h. cc)
text_eq_iff (c ∷ s) (d ∷ t) = ground (arith, text_eq_iff s t)

pub text_eq_refl : (s : Text) → text_eq s s ≡ true
text_eq_refl s = (text_eq_iff s s).1 refl

-- `c.isspace()`: the code points that `str.strip()` removes.
unfoldable pub is_space : ℕ → Bool
is_space c =
    (leb 9 c && leb c 13)
    || (leb 28 c && leb c 32)
    || c == 133
    || c == 160
    || c == 5760
    || (leb 8192 c && leb c 8202)
    || c == 8232
    || c == 8233
    || c == 8239
    || c == 8287
    || c == 12288

unfoldable pub lstrip : Text → Text
lstrip [] = []
lstrip (c ∷ s) = elim (is_space c) [ true ↦ lstrip s | false ↦ c ∷ s ]

abbrev rcons : ℕ → Text → Text
rcons c [] = elim (is_space c) [ true ↦ [] | false ↦ c ∷ [] ]
rcons c (d ∷ t) = c ∷ d ∷ t

unfoldable pub rstrip : Text → Text
rstrip [] = []
rstrip (c ∷ s) = rcons c (rstrip s)

-- `s.strip()`
unfoldable pub strip : Text → Text
unfolding lstrip rstrip
strip s = rstrip (lstrip s)

-- `not s.strip()`
abbrev pub is_blank : Text → Bool
is_blank s = is_empty (strip s)

rcons-ne-nil : (c : ℕ) (s : Text) → is_space c ≡ false → is_empty (rcons c s) ≡ false
rcons-ne-nil c [] h = ground arith
rcons-ne-nil c (d ∷ t) h = refl

-- A text that begins with no space is not blank.
pub nonblank_head : (c : ℕ) (s : Text) → is_space c ≡ false → is_blank (c ∷ s) ≡ false
unfolding strip
nonblank_head c s h = ground (arith, rcons-ne-nil c (rstrip s) h)

rstrip_nonspace : (s : Text) → all (λ c. not (is_space c)) s ≡ true → rstrip s ≡ s
unfolding rstrip
rstrip_nonspace [] h = refl
rstrip_nonspace (c ∷ []) h = ground arith
rstrip_nonspace (c ∷ d ∷ s) h = ap (rcons c) (rstrip_nonspace (d ∷ s) (ground arith))

-- `strip` keeps a text without spaces.
pub strip_nonspace : (s : Text) → all (λ c. not (is_space c)) s ≡ true → strip s ≡ s
unfolding strip lstrip
strip_nonspace [] h = rstrip_nonspace [] refl
strip_nonspace (c ∷ s) h = ground (arith, rstrip_nonspace (c ∷ s) h)
