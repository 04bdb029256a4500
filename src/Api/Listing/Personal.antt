-- ===== src/Api/Listing/Personal.antt =====
-- What `GetPersonalSites` sends, how much, and that it ends.
use sprawler.Common.{
  ℕ, zero, suc, ◌+◌, ◌-◌, ◌≤◌, ◌<◌, ◌≡◌, refl, String, Bool, true, false, Option, none, some, List,
  [], ◌∷◌, ◌++◌, ◌==◌, if◌then◌else◌, length, take, map, arith, Bool-cases, inl, inr, append-nil,
  subst, sym,
}
use sprawler.Errors.{GoError}
use sprawler.Api.Listing.Defs.{
  SiteEnumerable, PageReply, not_built, not_run, not_parsed, parsed, Listed, Context, ended,
  Enumeration, finished, asks_more, after_sites, is_reached, Stop, all_sent, limit_reached,
  cancelled, after_stop, send_personal, goes_on, list_personal, get_personal_sites,
}
use sprawler.Api.Listing.Pages.{CutShort, CutShort-append, take-all}

-- How many sites may still be sent: `none` is no limit.
unfoldable pub left_of : ℕ → ℕ → Option ℕ
left_of zero total = none
left_of (suc n) total = some (suc n - total)

abbrev pub first : {A : Type 0} → Option ℕ → List A → List A
first none xs = xs
first (some n) xs = take n xs

-- The items of the pages up to an empty page, one without a new token, or an error.
abbrev pub reachable : {A : Type 0} → String → List (PageReply A) → List A
reachable start (parsed d ∷ rs) =
    let rest = reachable d.next_start_index rs in
    if length d.child_items == 0
    then []
    else d.child_items ++ (if goes_on d.next_start_index start then rest else [])
reachable start _ = []

module _ {A : Type 0} where
  take-more : (n k : ℕ) (x : A) (xs : List A) → n ≡ suc k → take n (x ∷ xs) ≡ x ∷ take k xs
  take-more zero k x xs h = absurd (omega (arith, h))
  take-more (suc n) k x xs h = ground (arith, h)

  first-reached :
      (max_sites total : ℕ) (xs : List A)
      → is_reached max_sites total ≡ true
      → first (left_of max_sites total) xs ≡ []
  unfolding is_reached left_of
  first-reached max_sites total xs h = ground (arith, h)

  first-more :
      (max_sites total : ℕ) (x : A) (xs : List A)
      → is_reached max_sites total ≡ false
      → first (left_of max_sites total) (x ∷ xs) ≡ x ∷ first (left_of max_sites (total + 1)) xs
  unfolding is_reached left_of
  first-more zero total x xs h = refl
  first-more (suc n) total x xs h =
      take-more (suc n - total) (suc n - (total + 1)) x xs (ground (arith, h))

-- What a run that has ended has sent of `whole`.
abbrev pub Cut : {S : Type 0} → List S → Enumeration S → Type 0
Cut whole (finished l) = CutShort whole l.sites l.error
Cut whole asks_more = Unit

after_stop-Cut :
    {S : Type 0} (stop : Stop) (n : ℕ) (whole ss more : List S) (rest : Enumeration S)
    → (stop ≡ all_sent → whole ≡ ss ++ more)
    → (stop ≡ limit_reached → whole ≡ ss)
    → ((e : GoError) → stop ≡ cancelled e → ss ≡ take (length ss) whole)
    → (stop ≡ all_sent → Cut more rest)
    → Cut whole (after_sites n ss (after_stop stop rest))
after_stop-Cut all_sent n whole ss more (finished l) h g k c =
    subst (λ w. CutShort w (ss ++ l.sites) l.error) (sym (h refl))
      (CutShort-append ss ss more l.sites none l.error (take-all ss, λ _. refl) (c refl) refl)
after_stop-Cut all_sent n whole ss more asks_more h g k c = ground arith
after_stop-Cut limit_reached n whole ss more rest h g k c =
    (ground (arith, append-nil ss, g refl, take-all ss), λ _. ground (arith, append-nil ss, g refl))
after_stop-Cut (cancelled e) n whole ss more rest h g k c =
    (ground (arith, append-nil ss, k e refl), λ n. absurd (ground (arith, n)))

first-nil : {A S : Type 0} (f : A → S) (o : Option ℕ) → [] ≡ map f (first o [])
first-nil f none = refl
first-nil f (some zero) = refl
first-nil f (some (suc n)) = refl

on_if-Cut :
    {A S : Type 0} (f : A → S) (o : Option ℕ) (goes : Bool) (xs : List A) (rest : Enumeration S)
    → Cut (map f (first o xs)) rest
    → Cut (map f (first o (if goes then xs else []))) (if goes then rest else finished (ended none))
on_if-Cut f o true xs rest c = c
on_if-Cut f o false xs rest c = (refl, λ _. first-nil f o)

module _ {A S : Type 0} (convert : A → S) (ctx : Context) (max_sites : ℕ) where
  send_personal-all_sent :
      (page i total : ℕ) (xs more : List A)
      → (send_personal convert ctx max_sites page i total xs).1 ≡ all_sent
      → map convert (first (left_of max_sites total) (xs ++ more))
        ≡ (send_personal convert ctx max_sites page i total xs).0
          ++ map convert (first (left_of max_sites (total + length xs)) more)
  unfolding send_personal
  send_personal-all_sent page i total [] more h = ground arith
  send_personal-all_sent page i total (x ∷ xs) more h = ground (
    arith,
    first-more max_sites total x (xs ++ more),
    send_personal-all_sent page (i + 1) (total + 1) xs more,
  )

  send_personal-limit_reached :
      (page i total : ℕ) (xs more : List A)
      → (send_personal convert ctx max_sites page i total xs).1 ≡ limit_reached
      → map convert (first (left_of max_sites total) (xs ++ more))
        ≡ (send_personal convert ctx max_sites page i total xs).0
  unfolding send_personal
  send_personal-limit_reached page i total [] more h = ground arith
  send_personal-limit_reached page i total (x ∷ xs) more h = ground (
    arith,
    first-more max_sites total x (xs ++ more),
    first-reached max_sites total (x ∷ (xs ++ more)),
    send_personal-limit_reached page (i + 1) (total + 1) xs more,
  )

  send_personal-cancelled :
      (page i total : ℕ) (xs more : List A) (e : GoError)
      → (send_personal convert ctx max_sites page i total xs).1 ≡ cancelled e
      → (send_personal convert ctx max_sites page i total xs).0
        ≡ take
            (length (send_personal convert ctx max_sites page i total xs).0)
            (map convert (first (left_of max_sites total) (xs ++ more)))
  unfolding send_personal
  send_personal-cancelled page i total [] more e h = ground arith
  send_personal-cancelled page i total (x ∷ xs) more e h = ground (
    arith,
    first-more max_sites total x (xs ++ more),
    send_personal-cancelled page (i + 1) (total + 1) xs more e,
  )

  length-send_personal :
      (page i total : ℕ) (xs : List A)
      → (send_personal convert ctx max_sites page i total xs).1 ≡ all_sent
      → length (send_personal convert ctx max_sites page i total xs).0 ≡ length xs
  unfolding send_personal
  length-send_personal page i total [] h = refl
  length-send_personal page i total (x ∷ xs) h =
      ground (arith, length-send_personal page (i + 1) (total + 1) xs)

  page-Cut :
      (page total : ℕ) (start : String) (d : SiteEnumerable A) (rs : List (PageReply A))
      → Cut
          (map convert (
            first
              (left_of max_sites (total + length d.child_items))
              (reachable d.next_start_index rs)))
          (list_personal convert ctx max_sites
            (page + 1)
            d.next_start_index
            (total + length d.child_items)
            rs)
      → Cut
          (map convert (
            first (left_of max_sites total) (
              d.child_items
              ++ (if goes_on d.next_start_index start
                  then reachable d.next_start_index rs
                  else []))))
          (after_sites
            (length d.child_items)
            (send_personal convert ctx max_sites page 0 total d.child_items).0
            (after_stop (send_personal convert ctx max_sites page 0 total d.child_items).1 (
              if goes_on d.next_start_index start
              then list_personal convert ctx max_sites
                  (page + 1)
                  d.next_start_index
                  (total
                    + length (send_personal convert ctx max_sites page 0 total d.child_items).0)
                  rs
              else finished (ended none))))
  page-Cut page total start d rs c =
      let xs = d.child_items in
      let goes = goes_on d.next_start_index start in
      let later = reachable d.next_start_index rs in
      let more = if goes then later else [] in
      after_stop-Cut (send_personal convert ctx max_sites page 0 total xs).1 (length xs) _ _
        (map convert (first (left_of max_sites (total + length xs)) more)) _
        (send_personal-all_sent page 0 total xs more)
        (send_personal-limit_reached page 0 total xs more)
        (send_personal-cancelled page 0 total xs more)
        (λ n.
          rw (length-send_personal page 0 total xs n)
            (on_if-Cut convert (left_of max_sites (total + length xs)) goes later _ c))

  list_personal-Cut :
      (page total : ℕ) (start : String) (rs : List (PageReply A))
      → Cut
          (map convert (first (left_of max_sites total) (reachable start rs)))
          (list_personal convert ctx max_sites page start total rs)
  unfolding list_personal
  list_personal-Cut page total start [] = ground arith
  list_personal-Cut page total start (not_built e ∷ rs) = (refl, λ n. absurd (ground (arith, n)))
  list_personal-Cut page total start (not_run e ∷ rs) = (refl, λ n. absurd (ground (arith, n)))
  list_personal-Cut page total start (not_parsed e ∷ rs) = (refl, λ n. absurd (ground (arith, n)))
  list_personal-Cut page total start (parsed d ∷ rs) =
      elim (Bool-cases (length d.child_items == 0)) [
        | inl empty ↦ rw empty (refl, λ _. first-nil convert (left_of max_sites total))
        | inr some_items ↦ rw some_items (
            page-Cut page total start d rs
              (list_personal-Cut (page + 1) (total + length d.child_items) d.next_start_index rs))
      ]

  -- If it comes to an end, `GetPersonalSites` has sent, in their order, the first `maxSites` items,
  -- or all of them if it is 0, of the pages up to an empty one or one without a new token, or the
  -- first of these; and all of these if it ends without an error.
  pub get_personal_sites-Cut :
      (rs : List (PageReply A))
      → Cut
          (map convert (first (left_of max_sites 0) (reachable "0" rs)))
          (get_personal_sites convert ctx max_sites rs)
  unfolding get_personal_sites
  get_personal_sites-Cut rs = list_personal-Cut 1 0 "0" rs

abbrev pub is_finished : {S : Type 0} → Enumeration S → Bool
is_finished (finished l) = true
is_finished asks_more = false

after_sites-is_finished :
    {S : Type 0} (n : ℕ) (ss : List S) (e : Enumeration S)
    → is_finished e ≡ true
    → is_finished (after_sites n ss e) ≡ true
after_sites-is_finished n ss (finished l) h = refl
after_sites-is_finished n ss asks_more h = h

module _ {A S : Type 0} (convert : A → S) (ctx : Context) (n : ℕ) where
  send_personal-is_full :
      (page i total : ℕ) (xs : List A)
      → suc n ≤ total
      → 0 < length xs
      → (send_personal convert ctx (suc n) page i total xs).1 ≡ limit_reached
  unfolding send_personal is_reached
  send_personal-is_full page i total [] full h = absurd (omega (arith, h))
  send_personal-is_full page i total (x ∷ xs) full h = ground (arith, full)

  list_personal_ends :
      (page total : ℕ) (start : String) (rs : List (PageReply A))
      → suc n < total + length rs
      → 0 < length rs
      → is_finished (list_personal convert ctx (suc n) page start total rs) ≡ true
  unfolding list_personal
  list_personal_ends page total start [] h k = absurd (omega (arith, k))
  list_personal_ends page total start (not_built e ∷ rs) h k = refl
  list_personal_ends page total start (not_run e ∷ rs) h k = refl
  list_personal_ends page total start (not_parsed e ∷ rs) h k = refl
  list_personal_ends page total start (parsed d ∷ rs) h k =
      let xs = d.child_items in
      let sent = length (send_personal convert ctx (suc n) page 0 total xs).0 in
      ground (
        arith,
        h,
        length-send_personal convert ctx (suc n) page 0 total xs,
        send_personal-is_full page 0 total xs,
        list_personal_ends (page + 1) (total + sent) d.next_start_index rs,
      )

  length-take : (k : ℕ) (xs : List A) → length (map convert (take k xs)) ≤ k
  length-take zero xs = omega arith
  length-take (suc k) [] = omega arith
  length-take (suc k) (x ∷ xs) = ground (arith, length-take k xs)

  take-le : (k : ℕ) (ys : List S) → length (take k ys) ≤ length ys
  take-le zero ys = omega arith
  take-le (suc k) [] = omega arith
  take-le (suc k) (y ∷ ys) = ground (arith, take-le k ys)

  length-first : (xs : List A) → length (map convert (first (left_of (suc n) 0) xs)) ≤ suc n
  unfolding left_of
  length-first xs = omega (arith, length-take (suc n - 0) xs)

  sites_within :
      (whole : List S) (e : Enumeration S)
      → length whole ≤ suc n
      → Cut whole e
      → is_finished e ≡ true
      → (l : Listed S) × (e ≡ finished l) × (length l.sites ≤ suc n)
  sites_within whole (finished l) h c f =
      (l, refl, ground (arith, h, c, take-le (length l.sites) whole))
  sites_within whole asks_more h c f = absurd (ground (arith, f))

  -- With a limit on the sites, `GetPersonalSites` ends when it has had one reply more than the limit,
  -- whatever the replies are, and has sent no more sites than the limit.
  pub get_personal_sites_bounds :
      (rs : List (PageReply A))
      → suc n < length rs
      → (l : Listed S) × (get_personal_sites convert ctx (suc n) rs ≡ finished l)
        × (length l.sites ≤ suc n)
  unfolding get_personal_sites
  get_personal_sites_bounds rs h =
      sites_within _ (get_personal_sites convert ctx (suc n) rs) (length-first (reachable "0" rs))
        (get_personal_sites-Cut convert ctx (suc n) rs)
        (list_personal_ends 1 0 "0" rs (omega (arith, h)) (omega (arith, h)))
