-- ===== src/Common/TextLaws.antt =====
-- Prefixes and suffixes come off again.
use Prim.Native.Nat.{ℕ}
use Prim.Native.Char.{Char, code}
use Prim.Native.String.{String, ◌++◌}
use mathlib.Core.Path.{◌≡◌, refl, ap, subst}
use mathlib.Core.Bool.{Bool, true, false, not, ◌&&◌}
use mathlib.Core.Option.{some}
use native.Mathlib.Omega.{arith}
use text.Mathlib.Text.{◌==◌ as str_eq}
use text.Mathlib.TextEquality.{eq_iff}
use text.Mathlib.TextPositions.{eq_refl}
use text.Mathlib.TextLemmas.{length-append, length-cons, nil-append, cons-append}
use sprawler.Common.Tests.{◌==◌}
use sprawler.Common.Text.{strip, strip_end, trim_prefix, trim_suffix, remove_first, before}

strip-append : (p s : String) → strip p (p ++ s) ≡ some s
unfolding strip
strip-append String.[] s = ap some (nil-append s)
strip-append (String.◌∷◌ c p) s = rw (cons-append c p s) (ground (arith, strip-append p s))

pub trim_prefix-append : (p s : String) → trim_prefix (p ++ s) p ≡ s
unfolding trim_prefix
trim_prefix-append p s = rw (strip-append p s)

strip_end_all : (s : String) → strip_end s s ≡ some ""
unfolding strip_end
strip_end_all String.[] = refl
strip_end_all (String.◌∷◌ c s) = ground (arith, eq_refl (String.◌∷◌ c s))

longer : (c : Char) (s suffix : String) → str_eq (String.◌∷◌ c (s ++ suffix)) suffix ≡ false
longer c s suffix = ground (
  arith,
  eq_iff (String.◌∷◌ c (s ++ suffix)) suffix,
  length-cons c (s ++ suffix),
  length-append s suffix,
)

strip_end-append : (s suffix : String) → strip_end suffix (s ++ suffix) ≡ some s
unfolding strip_end
strip_end-append String.[] suffix = rw (nil-append suffix) (strip_end_all suffix)
strip_end-append (String.◌∷◌ c s) suffix =
    rw (cons-append c s suffix) (ground (arith, longer c s suffix, strip_end-append s suffix))

pub trim_suffix-append : (s suffix : String) → trim_suffix (s ++ suffix) suffix ≡ s
unfolding trim_suffix
trim_suffix-append s suffix = rw (strip_end-append s suffix)

remove_first-strip :
    (c : Char) (p s r : String)
    → strip p (String.◌∷◌ c s) ≡ some r
    → remove_first p (String.◌∷◌ c s) ≡ r
unfolding remove_first
remove_first-strip c p s r h = ground (arith, h)

pub remove_first-append :
    (c : Char) (p s : String) → remove_first (String.◌∷◌ c p) (String.◌∷◌ c p ++ s) ≡ s
remove_first-append c p s = rw (cons-append c p s) (
    remove_first-strip c (String.◌∷◌ c p) (p ++ s) s (
      subst (λ x. strip (String.◌∷◌ c p) x ≡ some s) (cons-append c p s)
        (strip-append (String.◌∷◌ c p) s)))

-- A character does not occur.
abbrev pub lacks : ℕ → String → Bool
lacks sep String.[] = true
lacks sep (String.◌∷◌ c s) = not (code c == sep) && lacks sep s

pub before-append :
    (sep : ℕ) (s t : String) → lacks sep s ≡ true → before sep (s ++ t) ≡ s ++ before sep t
unfolding before
before-append sep String.[] t h = rw (nil-append t) (rw (nil-append (before sep t)) refl)
before-append sep (String.◌∷◌ c s) t h =
    rw (cons-append c s t)
      (rw (cons-append c s (before sep t)) (ground (arith, before-append sep s t)))
