-- ===== src/Api/Metrics/Adders.antt =====
-- `counterMap.Add` by many goroutines at once (internal/api/counter_map.go): no count is lost.
use sprawler.Common.{
  ℕ, zero, suc, ◌+◌, ◌≡◌, refl, String, List, [], ◌∷◌, All, total, str_eq, eq_iff, if◌then◌else◌,
  arith,
}
use sprawler.Common.Dict.{Dict, lookup, get_or_zero, lookup-insert, lookup-add_at}
use sprawler.Api.Metrics.Defs.{Adder, looks, misses, holds, added, advance, advance_at, add_all}

-- What a goroutine has still to add to a counter.
abbrev pub owed : String → Adder → ℕ
owed k (looks key n) = if str_eq key k then n else 0
owed k (misses key n) = if str_eq key k then n else 0
owed k (holds key n) = if str_eq key k then n else 0
owed k added = 0

abbrev pub value : String → Dict ℕ → ℕ
value k d = get_or_zero (lookup k d)

advance-owed :
    (k : String) (a : Adder) (d : Dict ℕ)
    → let (b, e) = advance a d in value k e + owed k b ≡ value k d + owed k a
unfolding advance
advance-owed k (looks key n) d = ground arith
advance-owed k (misses key n) d = ground (arith, lookup-insert key k 0 d, eq_iff key k)
advance-owed k (holds key n) d = ground (arith, lookup-add_at key k n d)
advance-owed k added d = refl

advance_at-owed :
    (k : String) (i : ℕ) (as_ : List Adder) (d : Dict ℕ)
    → let (bs, e) = advance_at i as_ d in
      value k e + total (owed k) bs ≡ value k d + total (owed k) as_
unfolding advance_at
advance_at-owed k i [] d = refl
advance_at-owed k zero (a ∷ as_) d = omega (arith, advance-owed k a d)
advance_at-owed k (suc i) (a ∷ as_) d = omega (arith, advance_at-owed k i as_ d)

add_all-owed :
    (k : String) (is : List ℕ) (as_ : List Adder) (d : Dict ℕ)
    → let (bs, e) = add_all is as_ d in
      value k e + total (owed k) bs ≡ value k d + total (owed k) as_
unfolding add_all
add_all-owed k [] as_ d = refl
add_all-owed k (i ∷ is) as_ d =
    let (bs, e) = advance_at i as_ d in
    omega (arith, advance_at-owed k i as_ d, add_all-owed k is bs e)

abbrev pub IsAdded : Adder → Type 0
IsAdded a = a ≡ added

added-owed : (k : String) (as_ : List Adder) → All IsAdded as_ → total (owed k) as_ ≡ 0
added-owed k [] h = refl
added-owed k (a ∷ as_) (e, h) = rw e (omega (arith, added-owed k as_ h))

-- However the goroutines interleave, once all of them are done each counter has grown by the sum of
-- what was added under its key, also where several found it missing at the same time.
pub add_all-sums :
    (k : String) (is : List ℕ) (as_ : List Adder) (d : Dict ℕ)
    → (let (bs, e) = add_all is as_ d in All IsAdded bs)
    → let (bs, e) = add_all is as_ d in value k e ≡ value k d + total (owed k) as_
add_all-sums k is as_ d h =
    omega (arith, add_all-owed k is as_ d, added-owed k (add_all is as_ d).0 h)
