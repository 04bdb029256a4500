-- ===== src/Api/Listing/Tests.antt =====
-- Listings of a few pages, and the theorems at them.
use sprawler.Common.{
  ℕ, ◌==◌, if◌then◌else◌, ◌≤◌, ◌≡◌, refl, Option, none, some, List, [], ◌∷◌, length, map, arith,
}
use sprawler.Common.Int.{pos}
use sprawler.Errors.{canceled, eof, fetched, wrapped}
use sprawler.Api.Listing.Defs.{
  Listing, next_fails, page_then, Context, Listed, PageReply, parsed, not_run, finished, get_sites,
  get_personal_sites,
}
use sprawler.Api.Listing.Pages.{CutShort, never_ends, get_sites-CutShort, get_sites_complete}
use sprawler.Api.Listing.Personal.{
  left_of, first, reachable, Cut, get_personal_sites-Cut, get_personal_sites_bounds,
}

-- Two pages, the first with an item that cannot be decoded, and a third that cannot be fetched.
abbrev two_pages : Listing (Option ℕ)
two_pages = page_then (some 1 ∷ none ∷ some 2 ∷ []) (next_fails (some 3 ∷ []) eof)

abbrev decode : Option ℕ → Option ℕ
decode o = o

-- A context that ends at the third item.
abbrev cancelled_at_third : Context
cancelled_at_third = record {
  ends_at_page = λ _. none;
  ends_at_item = λ page i. if i == 2 then some canceled else none;
}

cancelled_test :
    get_sites decode cancelled_at_third (pos 0) (fetched (some two_pages))
    ≡ record { sites = 1 ∷ []; discovered = 3 ∷ []; error = some canceled }
unfolding get_sites
cancelled_test = refl

get_sites-CutShort_example :
    CutShort
      (1 ∷ 2 ∷ 3 ∷ [])
      (get_sites decode cancelled_at_third (pos 0) (fetched (some two_pages))).sites
      (get_sites decode cancelled_at_third (pos 0) (fetched (some two_pages))).error
get_sites-CutShort_example = get_sites-CutShort decode cancelled_at_third 0 two_pages

-- The limit of two pages is met, and the listing fails.
get_sites_complete_example :
    get_sites decode never_ends (pos 2) (fetched (some two_pages)) ≡ record {
      sites = 1 ∷ 2 ∷ 3 ∷ [];
      discovered = 3 ∷ 1 ∷ [];
      error = some (wrapped "failed to get page" eof);
    }
get_sites_complete_example = get_sites_complete decode 2 two_pages

abbrev three_replies : List (PageReply ℕ)
three_replies =
    parsed (record { next_start_index = "17"; child_items = 1 ∷ 2 ∷ [] })
    ∷ parsed (record { next_start_index = "17"; child_items = 3 ∷ [] })
    ∷ not_run eof
    ∷ []

abbrev same : ℕ → ℕ
same n = n

get_personal_sites_test :
    get_personal_sites same never_ends 0 three_replies
    ≡ finished (record { sites = 1 ∷ 2 ∷ 3 ∷ []; discovered = 2 ∷ 1 ∷ []; error = none })
unfolding get_personal_sites
get_personal_sites_test = refl

get_personal_sites-Cut_example :
    Cut
      (map same (first (left_of 0 0) (reachable "0" three_replies)))
      (get_personal_sites same never_ends 0 three_replies)
get_personal_sites-Cut_example = get_personal_sites-Cut same never_ends 0 three_replies

get_personal_sites_bounds_example :
    (l : Listed ℕ) × (get_personal_sites same never_ends 2 three_replies ≡ finished l)
    × (length l.sites ≤ 2)
get_personal_sites_bounds_example =
    get_personal_sites_bounds same never_ends 1 three_replies (omega arith)
