-- ===== src/Progress/Lines.antt =====
-- The lines of a report come out of its message again: no section has a line break of its own.
use Prim.Native.String.{◌++◌}
use text.Mathlib.TextLemmas.{nil-append, cons-append}
use sprawler.Common.{
  ℕ, zero, suc, ◌/◌, ◌%◌, ◌≡◌, refl, String, Bool, true, false, List, [], ◌∷◌, if◌then◌else◌, All,
  arith, ap, ◌∙◌,
}
use sprawler.Common.Int.{ℤ, pos, negsuc}
use sprawler.Common.Text.{show_int, split, itoa, itoa_on, digit_text}
use sprawler.Common.TextLaws.{lacks}
use sprawler.Progress.Format.{join, section_of, in_brackets}

lacks-append :
    (sep : ℕ) (s t : String) → lacks sep s ≡ true → lacks sep t ≡ true → lacks sep (s ++ t) ≡ true
lacks-append sep String.[] t h k = rw (nil-append t) k
lacks-append sep (String.◌∷◌ c s) t h k =
    rw (cons-append c s t) (ground (arith, lacks-append sep s t))

-- No line break.
unfoldable pub IsOneLine : String → Type 0
IsOneLine s = lacks b'\n' s ≡ true

pub no_break : (s : String) → lacks b'\n' s ≡ true → IsOneLine s
unfolding IsOneLine
no_break s h = h

pub ++-IsOneLine : (s t : String) → IsOneLine s → IsOneLine t → IsOneLine (s ++ t)
unfolding IsOneLine
++-IsOneLine s t h k = lacks-append b'\n' s t h k

split_one : (s : String) → IsOneLine s → split b'\n' s ≡ s ∷ []
unfolding split IsOneLine
split_one String.[] h = refl
split_one (String.◌∷◌ c s) h = ground (arith, split_one s)

split_more : (s t : String) → IsOneLine s → split b'\n' (s ++ ("\n" ++ t)) ≡ s ∷ split b'\n' t
unfolding split IsOneLine
split_more String.[] t h =
    rw (nil-append ("\n" ++ t))
      (rw (cons-append _ _ t) (ap (λ x. "" ∷ split b'\n' x) (nil-append t)))
split_more (String.◌∷◌ c s) t h = rw (cons-append c s ("\n" ++ t)) (ground (arith, split_more s t))

abbrev pub or_blank : List String → List String
or_blank [] = "" ∷ []
or_blank (s ∷ ss) = s ∷ ss

pub split-join : (ss : List String) → All IsOneLine ss → split b'\n' (join "\n" ss) ≡ or_blank ss
unfolding join
split-join [] h = unfold split in refl
split-join (s ∷ []) h = split_one s h.0
split-join (s ∷ t ∷ ts) h =
    split_more s (join "\n" (t ∷ ts)) h.0 ∙ ap (λ r. s ∷ r) (split-join (t ∷ ts) h.1)

pub if-IsOneLine :
    (b : Bool) (s t : String) → IsOneLine s → IsOneLine t → IsOneLine (if b then s else t)
if-IsOneLine true s t h k = h
if-IsOneLine false s t h k = k

digit_text-IsOneLine : (n : ℕ) → IsOneLine (digit_text n)
digit_text-IsOneLine n = if-IsOneLine _ _ _ (no_break "0" refl) (
    if-IsOneLine _ _ _ (no_break "1" refl) (
      if-IsOneLine _ _ _ (no_break "2" refl) (
        if-IsOneLine _ _ _ (no_break "3" refl) (
          if-IsOneLine _ _ _ (no_break "4" refl) (
            if-IsOneLine _ _ _ (no_break "5" refl) (
              if-IsOneLine _ _ _ (no_break "6" refl) (
                if-IsOneLine _ _ _ (no_break "7" refl)
                  (if-IsOneLine _ _ _ (no_break "8" refl) (no_break "9" refl)))))))))

itoa_on-IsOneLine : (fuel n : ℕ) → IsOneLine (itoa_on fuel n)
unfolding itoa_on
itoa_on-IsOneLine zero n = digit_text-IsOneLine (n % 10)
itoa_on-IsOneLine (suc fuel) n =
    if-IsOneLine _ _ _ (digit_text-IsOneLine n)
      (++-IsOneLine _ _ (itoa_on-IsOneLine fuel (n / 10)) (digit_text-IsOneLine (n % 10)))

pub show_int-IsOneLine : (n : ℤ) → IsOneLine (show_int n)
unfolding show_int
show_int-IsOneLine (pos n) = itoa_on-IsOneLine 19 n
show_int-IsOneLine (negsuc n) = ++-IsOneLine _ _ (no_break "-" refl) (itoa_on-IsOneLine 19 (suc n))

pub itoa-IsOneLine : (n : ℕ) → IsOneLine (itoa n)
itoa-IsOneLine n = itoa_on-IsOneLine 19 n

pub join-IsOneLine :
    (sep : String) → IsOneLine sep → (ss : List String) → All IsOneLine ss → IsOneLine (join sep ss)
unfolding join
join-IsOneLine sep h [] a = no_break "" refl
join-IsOneLine sep h (s ∷ []) a = a.0
join-IsOneLine sep h (s ∷ t ∷ ts) a =
    ++-IsOneLine s _ a.0 (++-IsOneLine sep _ h (join-IsOneLine sep h (t ∷ ts) a.1))

pub section_of-IsOneLine :
    (prefix sep : String)
    → IsOneLine prefix
    → IsOneLine sep
    → (ss : List String) → All IsOneLine ss
    → All IsOneLine (section_of prefix sep ss)
section_of-IsOneLine prefix sep h k [] a = tt
section_of-IsOneLine prefix sep h k (s ∷ ss) a =
    (++-IsOneLine prefix _ h (join-IsOneLine sep k (s ∷ ss) a), tt)

pub in_brackets-IsOneLine : (ss : List String) → All IsOneLine ss → IsOneLine (in_brackets ss)
in_brackets-IsOneLine [] a = no_break "" refl
in_brackets-IsOneLine (s ∷ ss) a =
    ++-IsOneLine _ _ (no_break " (" refl)
      (++-IsOneLine _ _ (join-IsOneLine ", " (no_break ", " refl) (s ∷ ss) a) (no_break ")" refl))
