-- ===== src/UrlFetch/Guard.antt =====
-- What backend/app/services/url_fetch.py requests, and what it returns.
use support_flow.Prelude.{
  length-append, ℕ, zero, suc, ◌+◌, ◌≤◌, ◌≡◌, ◌≢◌, refl, ap, ◌∙◌, subst, Bool, true, false, not,
  Option, none, some, List, [], ◌∷◌, ◌++◌, leb, ltb, length, any_of, All, arith,
}
use support_flow.Text.{Text}
use support_flow.Text.Utf8.{Bytes}
use support_flow.Document.Extract.{is_readable}
use support_flow.UrlFetch.{
  Address, Lookup, addresses, lookup_failed, Response, unreachable, redirect, answered, Network,
  UrlFetchError, FetchedPage, Fetch, fetched, refused, crashed, then_fetch, refuse_if, is_http,
  is_empty, parse, is_private, check_addresses, assert_routable, check_hop, read_from, read_capped,
  header, page_of, Requests, unless_long, on_response, requested, if_passed, fetch_from, fetch,
  max_url_bytes, max_url_chars,
}

-- An address outside the service's own network.
abbrev pub IsPublic : Address → Type 0
IsPublic a = (a.is_global ≡ true) × (a.is_multicast ≡ false)

-- A URL of the web, whose host has an address and only public ones.
abbrev pub IsAllowed : Network → Text → Type 0
IsAllowed network url =
    (is_http (network.scheme url) ≡ true)
    × (network.hostname url ≢ [])
    × ((as' : List Address) × ((network.resolve (network.hostname url) ≡ addresses as')
          × (as' ≢ [])
          × All IsPublic as'))

-- A page that may be read, no larger than the limit, from the last URL that was requested.
abbrev pub IsPage : Fetch FetchedPage → List Text → Type 0
IsPage (fetched p) urls =
    (length p.body ≤ max_url_bytes)
    × (is_readable p.content_type ≡ true)
    × ((before : List Text) × (urls ≡ before ++ p.url ∷ []))
IsPage (refused e) urls = Unit
IsPage crashed urls = Unit

not-false : {b : Bool} → not b ≡ false → b ≡ true
not-false {b = true} h = refl
not-false {b = false} h = cc

any_of-IsPublic : (as' : List Address) → any_of is_private as' ≡ false → All IsPublic as'
any_of-IsPublic [] h = tt
any_of-IsPublic (a ∷ as') h = (ground (arith, h), any_of-IsPublic as' (ground (arith, h)))

-- A chain that returned went through its first step, and the rest returned.
then_fetch-fetched :
    {A B : Type 0} (m : Fetch A) (f : A → Fetch B) (b : B)
    → then_fetch m f ≡ fetched b
    → (a : A) × ((m ≡ fetched a) × (f a ≡ fetched b))
then_fetch-fetched (fetched a) f b h = (a, (refl, h))
then_fetch-fetched (refused e) f b h = absurd (cc h)
then_fetch-fetched crashed f b h = absurd (cc h)

refuse_if-fetched :
    (test : Bool) (e : UrlFetchError) {u : Unit} → refuse_if test e ≡ fetched u → test ≡ false
refuse_if-fetched true e h = absurd (cc h)
refuse_if-fetched false e h = refl

is_empty-false : {A : Type 0} (xs : List A) → is_empty xs ≡ false → xs ≢ []
is_empty-false [] h e = cc
is_empty-false (x ∷ xs) h e = cc

check_addresses-IsPublic :
    (o : Lookup) {u : Unit}
    → check_addresses o ≡ fetched u
    → (as' : List Address) × ((o ≡ addresses as') × (as' ≢ []) × All IsPublic as')
check_addresses-IsPublic lookup_failed h = absurd (cc h)
check_addresses-IsPublic (addresses as') {u} h =
    let (_, (first, second)) =
      then_fetch-fetched (refuse_if (is_empty as') UrlFetchError.unresolved) _ u h in
    (
      as',
      (
        refl,
        is_empty-false as' (refuse_if-fetched (is_empty as') _ first),
        any_of-IsPublic as' (refuse_if-fetched (any_of is_private as') _ second),
      ),
    )

check_hop-IsAllowed :
    (network : Network) (url : Text) {u : Unit}
    → check_hop network url ≡ fetched u
    → IsAllowed network url
unfolding check_hop parse assert_routable
check_hop-IsAllowed network url {u} h =
    let (host, (parsed, routable)) =
      then_fetch-fetched (parse network url) (assert_routable network) u h in
    let (_, (web, rest)) =
      then_fetch-fetched (refuse_if (not (is_http (network.scheme url))) UrlFetchError.bad_scheme) _
        host parsed in
    let (_, (named, same)) =
      then_fetch-fetched (refuse_if (is_empty (network.hostname url)) UrlFetchError.no_host) _ host
        rest in
    let same_host : network.hostname url ≡ host = cc same in
    let web' : not (is_http (network.scheme url)) ≡ false = refuse_if-fetched _ _ web in
    (
      not-false web',
      is_empty-false (network.hostname url) (refuse_if-fetched _ _ named),
      check_addresses-IsPublic (network.resolve (network.hostname url))
          (ap (λ (x : Text). check_addresses (network.resolve x)) same_host ∙ routable),
    )

-- What is read is within the limit.
read_from-bound :
    (total : ℕ) (pieces : List Bytes) (body : Bytes)
    → total ≤ max_url_bytes
    → read_from total pieces ≡ fetched body
    → total + length body ≤ max_url_bytes
unfolding read_from
read_from-bound total [] body room h =
    let e : [] ≡ body = cc h in
    subst (λ (b : Bytes). total + length b ≤ max_url_bytes) e (omega (arith, room))
read_from-bound total (piece ∷ pieces) body room h =
    let (_, (fits, later)) =
      then_fetch-fetched
        (refuse_if (ltb max_url_bytes (total + length piece)) UrlFetchError.too_large) _ body h in
    let (more, (rest, whole)) =
      then_fetch-fetched (read_from (total + length piece) pieces) _ body later in
    let room' : total + length piece ≤ max_url_bytes = ground (arith, refuse_if-fetched _ _ fits) in
    let bound = read_from-bound (total + length piece) pieces more room' rest in
    let e : piece ++ more ≡ body = cc whole in
    subst (λ (b : Bytes). total + length b ≤ max_url_bytes) e
      (omega (arith, bound, length-append piece more))

page_of-IsPage :
    (url : Text) (status : ℕ) (content_type : Option Text) (pieces : List Bytes)
    (r : Fetch FetchedPage)
    → page_of url status content_type pieces ≡ r
    → IsPage r (url ∷ [])
unfolding page_of read_capped
page_of-IsPage url status content_type pieces (refused e) h = tt
page_of-IsPage url status content_type pieces crashed h = tt
page_of-IsPage url status content_type pieces (fetched p) h =
    let (_, (found, next)) =
      then_fetch-fetched (refuse_if (leb 400 status) (UrlFetchError.http_status status)) _ p h in
    let (_, (readable, reading)) =
      then_fetch-fetched
        (refuse_if (not (is_readable (header content_type))) UrlFetchError.unreadable_type) _ p
        next in
    let (body, (all, page)) = then_fetch-fetched (read_from 0 pieces) _ p reading in
    let e : record { url = url; content_type = header content_type; body = body } ≡ p = cc page in
    subst (λ (q : FetchedPage). IsPage (fetched q) (url ∷ [])) e
      (
        omega (arith, read_from-bound 0 pieces body (omega arith) all),
        not-false (refuse_if-fetched _ _ readable),
        ([], refl),
      )

-- At most so many requests, each of them allowed, and a page as it should be.
abbrev pub IsGuarded : Network → ℕ → Requests → Type 0
IsGuarded network most (r, urls) =
    (length urls ≤ most) × All (IsAllowed network) urls × IsPage r urls

IsPage-cons :
    (r : Fetch FetchedPage) (url : Text) (urls : List Text) → IsPage r urls → IsPage r (url ∷ urls)
IsPage-cons (fetched p) url urls (small, readable, (before, e)) =
    (small, readable, (url ∷ before, ap (λ (us : List Text). url ∷ us) e))
IsPage-cons (refused e) url urls h = tt
IsPage-cons crashed url urls h = tt

module _ (network : Network) where
  requested-IsGuarded :
      (most : ℕ) (url : Text) (r : Requests)
      → IsAllowed network url
      → IsGuarded network most r
      → IsGuarded network (suc most) (requested url r)
  requested-IsGuarded most url (r, urls) allowed (few, all, page) =
      (omega (arith, few), (allowed, all), IsPage-cons r url urls page)

  unless_long-IsGuarded :
      (left : ℕ) (current : Text) (long : Bool) (r : Requests)
      → IsAllowed network current
      → IsGuarded network left r
      → IsGuarded network (suc left) (requested current (unless_long long r))
  unless_long-IsGuarded left current true r allowed h = (omega arith, (allowed, tt), tt)
  unless_long-IsGuarded left current false r allowed h =
      requested-IsGuarded left current r allowed h

  on_response-IsGuarded :
      (left : ℕ) (current : Text) (follow : Text → Requests) (response : Response)
      → IsAllowed network current
      → ((next : Text) → IsGuarded network left (follow next))
      → IsGuarded network
          (suc left)
          (requested current (on_response network current follow response))
  on_response-IsGuarded left current follow unreachable allowed later =
      (omega arith, (allowed, tt), tt)
  on_response-IsGuarded left current follow (redirect none) allowed later =
      (omega arith, (allowed, tt), tt)
  on_response-IsGuarded left current follow (redirect (some [])) allowed later =
      (omega arith, (allowed, tt), tt)
  on_response-IsGuarded left current follow (redirect (some (c ∷ location))) allowed later =
      unless_long-IsGuarded left current
        (ltb max_url_chars (length (network.urljoin current (c ∷ location))))
        (follow (network.urljoin current (c ∷ location))) allowed
        (later (network.urljoin current (c ∷ location)))
  on_response-IsGuarded left current follow (answered status content_type pieces) allowed later =
      (omega arith, (allowed, tt), page_of-IsPage current status content_type pieces _ refl)

  if_passed-IsGuarded :
      (most : ℕ) (check : Fetch Unit) (r : Requests)
      → ((u : Unit) → check ≡ fetched u → IsGuarded network most r)
      → IsGuarded network most (if_passed check r)
  if_passed-IsGuarded most (fetched u) r h = h u refl
  if_passed-IsGuarded most (refused e) r h = (omega arith, tt, tt)
  if_passed-IsGuarded most crashed r h = (omega arith, tt, tt)

  fetch_from-IsGuarded :
      (left : ℕ) (url : Text) → IsGuarded network left (fetch_from network left url)
  unfolding fetch_from
  fetch_from-IsGuarded zero url = (omega arith, tt, tt)
  fetch_from-IsGuarded (suc left) url =
      if_passed-IsGuarded (suc left) (check_hop network url) _ (λ u passed.
        on_response-IsGuarded left url (λ next. fetch_from network left next) (network.get url)
          (check_hop-IsAllowed network url passed) (λ next. fetch_from-IsGuarded left next))

  -- A fetch makes at most six requests. Each is of an http or https URL whose host has an address, and only
  -- addresses that are global and not multicast, redirects included. A page that is returned has a type that
  -- can be read, at most five megabytes, and the URL of the last request.
  pub fetch-IsGuarded : (url : Text) → IsGuarded network 6 (fetch network url)
  unfolding fetch
  fetch-IsGuarded url = fetch_from-IsGuarded 6 url
