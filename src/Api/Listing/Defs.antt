-- ===== src/Api/Listing/Defs.antt =====
-- `GetSites` and `GetPersonalSites`. What the service replies is an input: the pages of a listing,
-- which is finite. A listing that never ends keeps the loops running. The decoding of an item is the
-- section's parameter, and so is the context, as the error by which it ends at a page or an item.
use sprawler.Common.{
  ℕ, zero, suc, ◌+◌, String, Bool, true, false, ◌&&◌, not, Option, none, some, List, [], ◌∷◌, ◌++◌,
  leb, ltb, ◌==◌, str_eq, if◌then◌else◌, length,
}
use sprawler.Common.Int.{ℤ, pos, negsuc}
use sprawler.Errors.{GoError, Reply, api_error, fetched, wrapped}

-- The pages from one on: the last one, one whose successor cannot be fetched, or one more.
pub data Listing (A : Type 0) : Type 0 where
  last_page : List A → Listing A
  next_fails : List A → GoError → Listing A
  page_then : List A → Listing A → Listing A

-- What a listing does: the sites that it sends, the sizes that it reports by `onPage`, and its
-- error.
pub record Listed (S : Type 0) : Type 0 where
  pub sites : List S
  pub discovered : List ℕ
  pub error : Option GoError

abbrev pub ended : {S : Type 0} → Option GoError → Listed S
ended e = record { sites = []; discovered = []; error = e }

-- A page's own part, before what follows.
abbrev pub after_page : {S : Type 0} → ℕ → List S → Listed S → Listed S
after_page n ss l = record { sites = ss ++ l.sites; discovered = n ∷ l.discovered; error = l.error }

-- What follows unless the context has ended.
abbrev pub unless : {S : Type 0} → Option GoError → Listed S → Listed S
unless none l = l
unless (some e) l = ended (some e)

-- `maxPages == 0 || pageNum <= maxPages`.
abbrev pub is_allowed : ℤ → ℕ → Bool
is_allowed (pos zero) page = true
is_allowed (pos (suc n)) page = leb page (suc n)
is_allowed (negsuc n) page = false

-- The context, at the start of a page and at an item's send.
pub record Context : Type 0 where
  pub ends_at_page : ℕ → Option GoError
  pub ends_at_item : ℕ → ℕ → Option GoError

module _ {A S : Type 0} (decode : A → Option S) (ctx : Context) where
  -- The loop over the items: an item that cannot be decoded is left out.
  unfoldable pub send_items : ℕ → ℕ → List A → List S × Option GoError
  send_items page i [] = ([], none)
  send_items page i (x ∷ xs) = elim (decode x) [
    | none ↦ send_items page (i + 1) xs
    | some s ↦ elim (ctx.ends_at_item page i) [
      | some e ↦ ([], some e)
      | none ↦ let (ss, e) = send_items page (i + 1) xs in (s ∷ ss, e)
    ]
  ]

  -- A page: `rest` is what the loop does after it.
  unfoldable pub send_page : ℕ → List A → Listed S → Listed S
  unfolding send_items
  send_page page xs rest =
      let (ss, e) = send_items page 0 xs in after_page (length xs) ss (unless e rest)

  unfoldable pub list_pages : ℤ → ℕ → Listing A → Listed S
  unfolding send_page
  list_pages max page (last_page xs) =
      if is_allowed max page
      then unless (ctx.ends_at_page page) (send_page page xs (ended none))
      else ended none
  list_pages max page (next_fails xs e) =
      if is_allowed max page
      then unless (ctx.ends_at_page page)
          (send_page page xs (ended (some (wrapped "failed to get page" e))))
      else ended none
  list_pages max page (page_then xs l) =
      let rest = list_pages max (page + 1) l in
      if is_allowed max page
      then unless (ctx.ends_at_page page) (send_page page xs rest)
      else ended none

  -- The reply to the first request, which may be no page at all.
  unfoldable pub get_sites : ℤ → Reply (Option (Listing A)) → Listed S
  unfolding list_pages
  get_sites max (api_error e) =
      ended (some (wrapped "failed to get first page from SharePoint admin API" e))
  get_sites max (fetched none) = ended none
  get_sites max (fetched (some l)) = list_pages max 1 l

-- The page of a CSOM response.
pub record SiteEnumerable (A : Type 0) : Type 0 where
  pub next_start_index : String
  pub child_items : List A

-- How a page of the personal sites is had: the query is built and run, and its response parsed.
pub data PageReply (A : Type 0) : Type 0 where
  not_built not_run not_parsed : GoError → PageReply A
  parsed : SiteEnumerable A → PageReply A

-- A run of the listing: it has ended, or asks for more pages than there are replies.
pub data Enumeration (S : Type 0) : Type 0 where
  finished : Listed S → Enumeration S
  asks_more : Enumeration S

abbrev pub after_sites : {S : Type 0} → ℕ → List S → Enumeration S → Enumeration S
after_sites n ss (finished l) = finished (after_page n ss l)
after_sites n ss asks_more = asks_more

-- `maxSites > 0 && totalSites >= maxSites`.
unfoldable pub is_reached : ℕ → ℕ → Bool
is_reached max_sites total = ltb 0 max_sites && leb max_sites total

-- How the items of a page end: all sent, the limit reached, or the context ended.
pub data Stop : Type 0 where
  all_sent limit_reached : Stop
  cancelled : GoError → Stop

abbrev pub after_stop : {S : Type 0} → Stop → Enumeration S → Enumeration S
after_stop limit_reached rest = finished (ended none)
after_stop (cancelled e) rest = finished (ended (some e))
after_stop all_sent rest = rest

-- The token goes on if it is not empty and not the one that was asked with.
abbrev pub goes_on : String → String → Bool
goes_on next start = not (str_eq next "") && not (str_eq next start)

module _ {A S : Type 0} (convert : A → S) (ctx : Context) (max_sites : ℕ) where
  unfoldable pub send_personal : ℕ → ℕ → ℕ → List A → List S × Stop
  unfolding is_reached
  send_personal page i total [] = ([], all_sent)
  send_personal page i total (x ∷ xs) = elim (is_reached max_sites total) [
    | true ↦ ([], limit_reached)
    | false ↦ elim (ctx.ends_at_item page i) [
      | some e ↦ ([], cancelled e)
      | none ↦ let (ss, e) = send_personal page (i + 1) (total + 1) xs in (convert x ∷ ss, e)
    ]
  ]

  -- The loop over the pages, with the replies that are to come.
  unfoldable pub list_personal : ℕ → String → ℕ → List (PageReply A) → Enumeration S
  unfolding send_personal
  list_personal page start total [] = asks_more
  list_personal page start total (not_built e ∷ rs) =
      finished (ended (some (wrapped "failed to build CSOM query" e)))
  list_personal page start total (not_run e ∷ rs) =
      finished (ended (some (wrapped "CSOM query failed" e)))
  list_personal page start total (not_parsed e ∷ rs) =
      finished (ended (some (wrapped "failed to parse CSOM response" e)))
  list_personal page start total (parsed d ∷ rs) =
      let (ss, stop) = send_personal page 0 total d.child_items in
      let rest = list_personal (page + 1) d.next_start_index (total + length ss) rs in
      if length d.child_items == 0
      then finished (ended none)
      else after_sites (length d.child_items) ss (
          after_stop stop
            (if goes_on d.next_start_index start then rest else finished (ended none)))

  unfoldable pub get_personal_sites : List (PageReply A) → Enumeration S
  unfolding list_personal
  get_personal_sites rs = list_personal 1 "0" 0 rs
