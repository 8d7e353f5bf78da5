-- ===== src/Document/Page.antt =====
-- The page reader of backend/app/services/document_text.py, `_PageText`: a page's text from the calls that
-- html.parser makes for its tags and its data.
use mathlib.Core.List.{append_assoc, append-nil}
use text.Mathlib.Text.{◌==◌ as str_eq}
use support_flow.Prelude.{
  ℕ, suc, ◌-◌, ◌≡◌, refl, sym, ap, subst, ◌∙◌, String, Bool, true, false, not, inl, inr, List, [],
  ◌∷◌, ◌++◌, ◌&&◌, ◌==◌, any_of, Bool-cases, arith, if◌then◌else◌,
}
use support_flow.Text.{Text, is_space, visible}
use support_flow.Text.Space.{visible-append}

abbrev one_of : List String → String → Bool
one_of names tag = any_of (λ name. str_eq name tag) names

-- `_SKIPPED_ELEMENTS`
unfoldable pub is_skipped : String → Bool
is_skipped = one_of ("script" ∷ "style" ∷ "noscript" ∷ "template" ∷ [])

-- `_LINE_BREAK_ELEMENTS`
unfoldable pub breaks_line : String → Bool
breaks_line = one_of (
    "address" ∷ "article" ∷ "aside" ∷ "blockquote" ∷ "br" ∷ "caption" ∷ "dd" ∷ "div" ∷ "dl" ∷ "dt"
    ∷ "figcaption" ∷ "figure" ∷ "footer" ∷ "form" ∷ "h1" ∷ "h2" ∷ "h3" ∷ "h4" ∷ "h5" ∷ "h6"
    ∷ "header" ∷ "hr" ∷ "li" ∷ "main" ∷ "nav" ∷ "ol" ∷ "p" ∷ "pre" ∷ "section" ∷ "table" ∷ "tbody"
    ∷ "td" ∷ "tfoot" ∷ "th" ∷ "thead" ∷ "tr" ∷ "ul" ∷ [])

pub record PageText : Type 0 where
  pub skipping : ℕ
  pub text : Text

-- The handler that html.parser calls, with its argument.
pub data Handled : Type 0 where
  starttag startendtag endtag : String → Handled
  characters : Text → Handled

abbrev append_text : Text → PageText → PageText
append_text s p = record p { text = p.text ++ s }

unfoldable pub handle : Handled → PageText → PageText
handle (Handled.starttag tag) p =
    if is_skipped tag
    then record p { skipping = suc p.skipping }
    else if breaks_line tag
    then append_text (10 ∷ []) p
    else p
handle (Handled.startendtag tag) p =
    if not (is_skipped tag) && breaks_line tag then append_text (10 ∷ []) p else p
handle (Handled.endtag tag) p =
    if is_skipped tag
    then record p { skipping = p.skipping - 1 }
    else if breaks_line tag
    then append_text (10 ∷ []) p
    else p
handle (Handled.characters s) p = if p.skipping == 0 then append_text s p else p

unfoldable pub feed : List Handled → PageText → PageText
feed [] p = p
feed (h ∷ hs) p = feed hs (handle h p)

-- `_from_html` of a decoded page, from the calls that html.parser makes for it.
unfoldable pub from_html : List Handled → Text
unfolding feed
from_html hs = (feed hs (record { skipping = 0; text = [] })).text

-- A page whose elements are closed where they were opened. `lone` is a start tag that has no end tag, such
-- as an image's; what follows an item is its last argument.
pub data Page : Type 0 where
  end : Page
  content : Text → Page → Page
  lone closed : String → Page → Page
  element : String → Page → Page → Page

-- The calls for a page, in its order.
abbrev pub calls : Page → List Handled
calls Page.end = []
calls (Page.content s rest) = Handled.characters s ∷ calls rest
calls (Page.lone tag rest) = Handled.starttag tag ∷ calls rest
calls (Page.closed tag rest) = Handled.startendtag tag ∷ calls rest
calls (Page.element tag inner rest) =
    Handled.starttag tag ∷ (calls inner ++ (Handled.endtag tag ∷ calls rest))

-- No script, style, template or noscript is left open.
abbrev pub IsClosed : Page → Type 0
IsClosed Page.end = Unit
IsClosed (Page.content s rest) = IsClosed rest
IsClosed (Page.lone tag rest) = (is_skipped tag ≡ false) × IsClosed rest
IsClosed (Page.closed tag rest) = IsClosed rest
IsClosed (Page.element tag inner rest) = IsClosed inner × IsClosed rest

-- The text that a reader of the page sees: what stands in no skipped element.
unfoldable pub shown : Page → Text
shown Page.end = []
shown (Page.content s rest) = s ++ shown rest
shown (Page.lone tag rest) = shown rest
shown (Page.closed tag rest) = shown rest
shown (Page.element tag inner rest) =
    let kept = shown inner in
    let later = shown rest in if is_skipped tag then later else kept ++ later

feed-append : (hs ks : List Handled) (p : PageText) → feed (hs ++ ks) p ≡ feed ks (feed hs p)
unfolding feed
feed-append [] ks p = refl
feed-append (h ∷ hs) ks p = feed-append hs ks (handle h p)

-- `p'` has the visible text `s` more than `p`, at the same depth.
abbrev Adds : Text → PageText → PageText → Type 0
Adds s p p' = (p'.skipping ≡ p.skipping) × (visible p'.text ≡ visible p.text ++ s)

Adds-trans : (s t : Text) (p q r : PageText) → Adds s p q → Adds t q r → Adds (s ++ t) p r
Adds-trans s t p q r h k =
    (k.0 ∙ h.0, k.1 ∙ ap (λ (x : Text). x ++ t) h.1 ∙ append_assoc (visible p.text) s t)

Adds-nothing : (p : PageText) → Adds [] p p
Adds-nothing p = (refl, sym (append-nil (visible p.text)))

-- A line break shows nowhere.
Adds-break : (p : PageText) → Adds [] p (append_text (10 ∷ []) p)
unfolding is_space
Adds-break p = (refl, visible-append p.text (10 ∷ []))

starttag-Adds :
    (tag : String) (p : PageText)
    → is_skipped tag ≡ false
    → Adds [] p (handle (Handled.starttag tag) p)
unfolding handle
starttag-Adds tag p h = elim (Bool-cases (breaks_line tag)) [
  | inl breaks ↦ rw (h, breaks) (Adds-break p)
  | inr inline ↦ rw (h, inline) (Adds-nothing p)
]

endtag-Adds :
    (tag : String) (p : PageText)
    → is_skipped tag ≡ false
    → Adds [] p (handle (Handled.endtag tag) p)
unfolding handle
endtag-Adds tag p h = elim (Bool-cases (breaks_line tag)) [
  | inl breaks ↦ rw (h, breaks) (Adds-break p)
  | inr inline ↦ rw (h, inline) (Adds-nothing p)
]

startendtag-Adds : (tag : String) (p : PageText) → Adds [] p (handle (Handled.startendtag tag) p)
unfolding handle
startendtag-Adds tag p = elim (Bool-cases (not (is_skipped tag) && breaks_line tag)) [
  | inl breaks ↦ rw breaks (Adds-break p)
  | inr inline ↦ rw inline (Adds-nothing p)
]

-- What a page adds at a depth: nothing below a skipped element.
abbrev seen : ℕ → Page → Text
seen depth page = if depth == 0 then visible (shown page) else []

characters-Adds :
    (s : Text) (p : PageText)
    → Adds (if p.skipping == 0 then visible s else []) p (handle (Handled.characters s) p)
unfolding handle
characters-Adds s p = elim (Bool-cases (p.skipping == 0)) [
  | inl open' ↦ rw open' (refl, visible-append p.text s)
  | inr under ↦ rw under (Adds-nothing p)
]

seen-content :
    (depth : ℕ) (s : Text) (rest : Page)
    → (if depth == 0 then visible s else []) ++ seen depth rest ≡ seen depth (Page.content s rest)
unfolding shown
seen-content depth s rest = elim (Bool-cases (depth == 0)) [
  | inl open' ↦ rw open' (sym (visible-append s (shown rest)))
  | inr under ↦ rw under refl
]

seen-element :
    (depth : ℕ) (tag : String) (inner rest : Page)
    → is_skipped tag ≡ false
    → seen depth inner ++ seen depth rest ≡ seen depth (Page.element tag inner rest)
unfolding shown
seen-element depth tag inner rest h = elim (Bool-cases (depth == 0)) [
  | inl open' ↦ rw (open', h) (sym (visible-append (shown inner) (shown rest)))
  | inr under ↦ rw under refl
]

seen-element_skipped :
    (depth : ℕ) (tag : String) (inner rest : Page)
    → is_skipped tag ≡ true
    → seen depth rest ≡ seen depth (Page.element tag inner rest)
unfolding shown
seen-element_skipped depth tag inner rest h = rw h refl

-- A step, and then a page at the depth that the step left alone.
Adds-then :
    (s : Text) (page : Page) (p q r : PageText)
    → Adds s p q
    → Adds (seen q.skipping page) q r
    → Adds (s ++ seen p.skipping page) p r
Adds-then s page p q r h k =
    subst (λ n. Adds (s ++ seen n page) p r) h.0 (Adds-trans s (seen q.skipping page) p q r h k)

-- A skipped element leaves the depth as it was.
skip-Adds :
    (tag : String) (p q : PageText)
    → is_skipped tag ≡ true
    → Adds [] (handle (Handled.starttag tag) p) q
    → Adds [] p (handle (Handled.endtag tag) q)
unfolding handle
skip-Adds tag p q h k =
    let opened : (q.skipping ≡ suc p.skipping) × (visible q.text ≡ visible p.text ++ []) =
      rw h at k in
    rw h (omega (arith, opened.0), opened.1)

feed-element :
    (tag : String) (inner rest : Page) (p : PageText)
    → feed (calls (Page.element tag inner rest)) p
      ≡ feed
          (calls rest)
          (handle (Handled.endtag tag) (feed (calls inner) (handle (Handled.starttag tag) p)))
unfolding feed
feed-element tag inner rest p =
    feed-append (calls inner) (Handled.endtag tag ∷ calls rest) (handle (Handled.starttag tag) p)

seen_under : (n : ℕ) (page : Page) → seen (suc n) page ≡ []
seen_under n page = ground arith

starttag-deeper :
    (tag : String) (p : PageText)
    → is_skipped tag ≡ true
    → (handle (Handled.starttag tag) p).skipping ≡ suc p.skipping
unfolding handle
starttag-deeper tag p h = rw h refl

feed-Adds :
    (page : Page) (p : PageText)
    → IsClosed page
    → Adds (seen p.skipping page) p (feed (calls page) p)
unfolding feed shown
feed-Adds Page.end p h = elim (Bool-cases (p.skipping == 0)) [
  | inl open' ↦ rw open' (Adds-nothing p)
  | inr under ↦ rw under (Adds-nothing p)
]
feed-Adds (Page.content s rest) p h =
    let p1 = handle (Handled.characters s) p in
    subst (λ (t : Text). Adds t p (feed (calls rest) p1)) (seen-content p.skipping s rest)
      (Adds-then _ rest p p1 _ (characters-Adds s p) (feed-Adds rest p1 h))
feed-Adds (Page.lone tag rest) p h =
    let p1 = handle (Handled.starttag tag) p in
    Adds-then [] rest p p1 _ (starttag-Adds tag p h.0) (feed-Adds rest p1 h.1)
feed-Adds (Page.closed tag rest) p h =
    let p1 = handle (Handled.startendtag tag) p in
    Adds-then [] rest p p1 _ (startendtag-Adds tag p) (feed-Adds rest p1 h)
feed-Adds (Page.element tag inner rest) p h =
    let p1 = handle (Handled.starttag tag) p in
    let p2 = feed (calls inner) p1 in
    let p3 = handle (Handled.endtag tag) p2 in
    let within' = feed-Adds inner p1 h.0 in
    let after = feed-Adds rest p3 h.1 in
    rw (feed-element tag inner rest p) (elim (Bool-cases (is_skipped tag)) [
      | inl skipped ↦
          let hidden =
            ap (λ n. seen n inner) (starttag-deeper tag p skipped) ∙ seen_under p.skipping inner in
          subst (λ (t : Text). Adds t p (feed (calls rest) p3))
            (seen-element_skipped p.skipping tag inner rest skipped)
            (Adds-then [] rest p p3 _
              (skip-Adds tag p p2 skipped (subst (λ (t : Text). Adds t p1 p2) hidden within'))
              after)
      | inr kept ↦
          subst (λ (t : Text). Adds t p (feed (calls rest) p3))
            (seen-element p.skipping tag inner rest kept)
            (Adds-then (seen p.skipping inner) rest p p3 _
              (subst (λ (t : Text). Adds t p p3) (append-nil (seen p.skipping inner))
                (Adds-trans (seen p.skipping inner) [] p p2 p3
                  (Adds-then [] inner p p1 p2 (starttag-Adds tag p kept) within')
                  (endtag-Adds tag p2 kept)))
              after)
    ])

-- The text read from a page without script, style, template or noscript elements left open is, white space
-- aside, the text that stands in none of those, however they are nested.
pub from_html-shown :
    (page : Page) → IsClosed page → visible (from_html (calls page)) ≡ visible (shown page)
unfolding from_html
from_html-shown page h = (feed-Adds page (record { skipping = 0; text = [] }) h).1
