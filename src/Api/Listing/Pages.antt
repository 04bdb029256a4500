-- ===== src/Api/Listing/Pages.antt =====
-- What `GetSites` sends.
use sprawler.Common.{
  ℕ, zero, suc, ◌+◌, ◌≡◌, refl, true, false, Option, none, some, List, [], ◌∷◌, ◌++◌, leb,
  if◌then◌else◌, length, take, arith, append-nil,
}
use sprawler.Common.Int.{pos}
use sprawler.Errors.{GoError, fetched, wrapped}
use sprawler.Api.Listing.Defs.{
  Listing, last_page, next_fails, page_then, Listed, Context, ended, unless, after_page, is_allowed,
  send_items, send_page, list_pages, get_sites,
}

-- All the pages, and the error after the last of them.
abbrev pub pages : {A : Type 0} → Listing A → List (List A)
pages (last_page xs) = xs ∷ []
pages (next_fails xs e) = xs ∷ []
pages (page_then xs l) = xs ∷ pages l

abbrev pub fault : {A : Type 0} → Listing A → Option GoError
fault (last_page xs) = none
fault (next_fails xs e) = some (wrapped "failed to get page" e)
fault (page_then xs l) = fault l

-- A limit of 0 is none.
abbrev pub limited : {A : Type 0} → ℕ → List A → List A
limited zero xs = xs
limited (suc n) xs = take (suc n) xs

abbrev pub lengths : {A : Type 0} → List (List A) → List ℕ
lengths [] = []
lengths (xs ∷ xss) = length xs ∷ lengths xss

-- The items of some pages that can be decoded.
abbrev pub decoded : {A S : Type 0} → (A → Option S) → List A → List S
decoded decode [] = []
decoded decode (x ∷ xs) = elim (decode x) [
  | none ↦ decoded decode xs
  | some s ↦ s ∷ decoded decode xs
]

abbrev pub all_decoded : {A S : Type 0} → (A → Option S) → List (List A) → List S
all_decoded decode [] = []
all_decoded decode (xs ∷ xss) = decoded decode xs ++ all_decoded decode xss

-- The first list starts with the second, and is it if there is no error.
abbrev pub CutShort : {S : Type 0} → List S → List S → Option GoError → Type 0
CutShort whole part e = (part ≡ take (length part) whole) × (e ≡ none → part ≡ whole)

abbrev pub never_ends : Context
never_ends = record { ends_at_page = λ _. none; ends_at_item = λ _ _. none }

pub take_start :
    {S : Type 0} (part whole more : List S)
    → part ≡ take (length part) whole
    → part ≡ take (length part) (whole ++ more)
take_start [] whole more h = refl
take_start (s ∷ part) [] more h = absurd (ground (arith, h))
take_start (s ∷ part) (w ∷ whole) more h = ground (arith, h, take_start part whole more)

pub take-append :
    {S : Type 0} (xs ys zs : List S)
    → take (length (xs ++ ys)) (xs ++ zs) ≡ xs ++ take (length ys) zs
take-append [] ys zs = refl
take-append (x ∷ xs) ys zs = ground (arith, take-append xs ys zs)

pub take-all : {S : Type 0} (xs : List S) → xs ≡ take (length xs) xs
take-all [] = refl
take-all (x ∷ xs) = ground (arith, take-all xs)

-- A part of the items is followed by the parts of those after them, or by nothing after an error.
pub CutShort-append :
    {S : Type 0} (xs part more rest : List S) (c e : Option GoError)
    → CutShort xs part c
    → CutShort more rest e
    → ((c ≡ none) → CutShort (xs ++ more) (part ++ rest) e)
CutShort-append xs part more rest c e (h, g) (k, j) n =
    (ground (arith, g n, k, take-append xs rest more), λ m. ground (arith, g n, j m))

page_end-CutShort :
    {S : Type 0} (c : Option GoError) (xs part more : List S) (rest : Listed S)
    → CutShort xs part c
    → CutShort more rest.sites rest.error
    → CutShort (xs ++ more) (part ++ (unless c rest).sites) (unless c rest).error
page_end-CutShort none xs part more rest h k =
    CutShort-append xs part more rest.sites none rest.error h k refl
page_end-CutShort (some e) xs part more rest (h, g) k =
    (ground (arith, take_start part xs more, append-nil part), λ n. absurd (ground (arith, n)))

unless-CutShort :
    {S : Type 0} (c : Option GoError) (whole : List S) (l : Listed S)
    → CutShort whole l.sites l.error
    → CutShort whole (unless c l).sites (unless c l).error
unless-CutShort none whole l h = h
unless-CutShort (some e) whole l h = (refl, λ n. absurd (ground (arith, n)))

allowed : (n left page : ℕ) → page + suc left ≡ suc (suc n) → is_allowed (pos (suc n)) page ≡ true
allowed n left page h = ground (arith, h)

past_allowed : (n page : ℕ) → page + 0 ≡ suc (suc n) → is_allowed (pos (suc n)) page ≡ false
past_allowed n page h = ground (arith, h)

take_nil : {A : Type 0} (n : ℕ) → take {A = A} n [] ≡ []
take_nil zero = refl
take_nil (suc n) = refl

module _ {A S : Type 0} (decode : A → Option S) where
  send_items-never :
      (page i : ℕ) (xs : List A)
      → send_items decode never_ends page i xs ≡ (decoded decode xs, none)
  unfolding send_items
  send_items-never page i [] = refl
  send_items-never page i (x ∷ xs) = ground (arith, send_items-never page (i + 1) xs)

  send_page-never :
      (page : ℕ) (xs : List A) (rest : Listed S)
      → send_page decode never_ends page xs rest ≡ after_page (length xs) (decoded decode xs) rest
  unfolding send_page
  send_page-never page xs rest = simp (send_items-never page 0 xs)

  send_items-CutShort :
      (ctx : Context) (page i : ℕ) (xs : List A)
      → CutShort
          (decoded decode xs)
          (send_items decode ctx page i xs).0
          (send_items decode ctx page i xs).1
  unfolding send_items
  send_items-CutShort ctx page i [] = (refl, λ _. refl)
  send_items-CutShort ctx page i (x ∷ xs) = ground (arith, send_items-CutShort ctx page (i + 1) xs)

  -- A page sends a part of its items, and what comes after it is left out on an error.
  send_page-CutShort :
      (ctx : Context) (page : ℕ) (xs : List A) (more : List S) (rest : Listed S)
      → CutShort more rest.sites rest.error
      → CutShort
          (decoded decode xs ++ more)
          (send_page decode ctx page xs rest).sites
          (send_page decode ctx page xs rest).error
  unfolding send_page
  send_page-CutShort ctx page xs more rest h =
      page_end-CutShort (send_items decode ctx page 0 xs).1 (decoded decode xs) _ more rest
        (send_items-CutShort ctx page 0 xs) h

  page-CutShort :
      (ctx : Context) (page : ℕ) (xs : List A) (more : List S) (rest : Listed S)
      → CutShort more rest.sites rest.error
      → CutShort
          (decoded decode xs ++ more)
          (unless (ctx.ends_at_page page) (send_page decode ctx page xs rest)).sites
          (unless (ctx.ends_at_page page) (send_page decode ctx page xs rest)).error
  page-CutShort ctx page xs more rest h =
      unless-CutShort (ctx.ends_at_page page) _ (send_page decode ctx page xs rest)
        (send_page-CutShort ctx page xs more rest h)

  unlimited-CutShort :
      (ctx : Context) (page : ℕ) (l : Listing A)
      → CutShort
          (all_decoded decode (pages l))
          (list_pages decode ctx (pos 0) page l).sites
          (list_pages decode ctx (pos 0) page l).error
  unfolding list_pages
  unlimited-CutShort ctx page (last_page xs) =
      page-CutShort ctx page xs [] (ended none) (refl, λ _. refl)
  unlimited-CutShort ctx page (next_fails xs e) =
      page-CutShort ctx page xs [] (ended (some (wrapped "failed to get page" e))) (refl, λ _. refl)
  unlimited-CutShort ctx page (page_then xs l) =
      page-CutShort ctx page xs _ (list_pages decode ctx (pos 0) (page + 1) l)
        (unlimited-CutShort ctx (page + 1) l)

  -- `left` more pages are allowed.
  within-CutShort :
      (ctx : Context) (n left page : ℕ) (l : Listing A)
      → page + left ≡ suc (suc n)
      → CutShort
          (all_decoded decode (take left (pages l)))
          (list_pages decode ctx (pos (suc n)) page l).sites
          (list_pages decode ctx (pos (suc n)) page l).error
  unfolding list_pages
  within-CutShort ctx n zero page (last_page xs) h = rw (past_allowed n page h) (refl, λ _. refl)
  within-CutShort ctx n zero page (next_fails xs e) h = rw (past_allowed n page h) (refl, λ _. refl)
  within-CutShort ctx n zero page (page_then xs l) h = rw (past_allowed n page h) (refl, λ _. refl)
  within-CutShort ctx n (suc left) page (last_page xs) h =
      rw (allowed n left page h)
        (rw (take_nil left) (page-CutShort ctx page xs [] (ended none) (refl, λ _. refl)))
  within-CutShort ctx n (suc left) page (next_fails xs e) h = rw (allowed n left page h) (
      rw (take_nil left) (
        page-CutShort ctx page xs [] (ended (some (wrapped "failed to get page" e)))
          (refl, λ _. refl)))
  within-CutShort ctx n (suc left) page (page_then xs l) h = rw (allowed n left page h) (
      page-CutShort ctx page xs _ (list_pages decode ctx (pos (suc n)) (page + 1) l)
        (within-CutShort ctx n left (page + 1) l (omega (arith, h))))

  -- An error of a fetch is an error of the listing if the page before it was allowed.
  abbrev pub expected_error : ℕ → Listing A → Option GoError
  expected_error zero l = fault l
  expected_error (suc n) l = if leb (length (pages l)) (suc n) then fault l else none

  unlimited_complete :
      (page : ℕ) (l : Listing A)
      → list_pages decode never_ends (pos 0) page l ≡ record {
        sites = all_decoded decode (pages l);
        discovered = lengths (pages l);
        error = fault l;
      }
  unfolding list_pages
  unlimited_complete page (last_page xs) = rw (send_page-never page xs (ended none)) refl
  unlimited_complete page (next_fails xs e) =
      rw (send_page-never page xs (ended (some (wrapped "failed to get page" e)))) refl
  unlimited_complete page (page_then xs l) =
      rw (send_page-never page xs (list_pages decode never_ends (pos 0) (page + 1) l))
        (rw (unlimited_complete (page + 1) l) refl)

  within_complete :
      (n left page : ℕ) (l : Listing A)
      → page + left ≡ suc (suc n)
      → list_pages decode never_ends (pos (suc n)) page l ≡ record {
        sites = all_decoded decode (take left (pages l));
        discovered = lengths (take left (pages l));
        error = if leb (length (pages l)) left then fault l else none;
      }
  unfolding list_pages
  within_complete n zero page (last_page xs) h = rw (past_allowed n page h) refl
  within_complete n zero page (next_fails xs e) h = rw (past_allowed n page h) refl
  within_complete n zero page (page_then xs l) h = ground (arith, past_allowed n page h)
  within_complete n (suc left) page (last_page xs) h =
      rw (allowed n left page h)
        (rw (send_page-never page xs (ended none)) (ground (arith, take_nil {A = List A} left)))
  within_complete n (suc left) page (next_fails xs e) h = rw (allowed n left page h) (
      rw (send_page-never page xs (ended (some (wrapped "failed to get page" e))))
        (ground (arith, take_nil {A = List A} left)))
  within_complete n (suc left) page (page_then xs l) h = rw (allowed n left page h) (
      rw (send_page-never page xs (list_pages decode never_ends (pos (suc n)) (page + 1) l))
        (rw (within_complete n left (page + 1) l (omega (arith, h))) (ground arith)))

  -- Whatever the context does, `GetSites` sends, in their order, the items that can be decoded of
  -- the first `maxPages` pages, of all pages if it is 0, or the first of them; and all of them if
  -- it ends without an error.
  pub get_sites-CutShort :
      (ctx : Context) (max_pages : ℕ) (l : Listing A)
      → CutShort
          (all_decoded decode (limited max_pages (pages l)))
          (get_sites decode ctx (pos max_pages) (fetched (some l))).sites
          (get_sites decode ctx (pos max_pages) (fetched (some l))).error
  unfolding get_sites
  get_sites-CutShort ctx zero l = unlimited-CutShort ctx 1 l
  get_sites-CutShort ctx (suc n) l = within-CutShort ctx n (suc n) 1 l (omega arith)

  -- In a context that never ends, `GetSites` sends the items that can be decoded of the pages that
  -- are allowed and reports the size of each; its error is that of the fetch after the last of
  -- them, if that is made, also when the page that it asked for was past the limit.
  pub get_sites_complete :
      (max_pages : ℕ) (l : Listing A)
      → get_sites decode never_ends (pos max_pages) (fetched (some l)) ≡ record {
        sites = all_decoded decode (limited max_pages (pages l));
        discovered = lengths (limited max_pages (pages l));
        error = expected_error max_pages l;
      }
  unfolding get_sites
  get_sites_complete zero l = unlimited_complete 1 l
  get_sites_complete (suc n) l = within_complete n (suc n) 1 l (omega arith)
