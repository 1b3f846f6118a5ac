-- ===== src/Tests/Chrome.antt =====
-- A browser that shows one document at each address, if the site is up.
use Prim.Native.Nat.{◌/◌}
use Prim.Native.Char.{Char, code}
use stock_monitoring.Common.{
  sym, ap, ◌∙◌, ℕ, ◌+◌, ◌-◌, ◌*◌, ◌==◌, leb, ◌&&◌, str_eq, Bool, Option, none, some, List, [], ◌∷◌,
  if◌then◌else◌, ◌≡◌, refl, arith,
}
use stock_monitoring.Common.Decimal.{parse_int}
use stock_monitoring.Domain.Action.{Action}
use stock_monitoring.Domain.Errors.{Result, ok, err, timeout_error}
use stock_monitoring.Providers.Browser.{Playwright, Tools, attempts}
use stock_monitoring.Providers.Methods.{PageLaws}
use stock_monitoring.Providers.Closing.{ReadLaws}
use stock_monitoring.Providers.Documents.{Document, first}

pub record Chrome : Type 0 where
  pub opened : List ℕ
  pub next : ℕ
  pub is_up : Bool

abbrev pub open_page : Chrome → Chrome
open_page v = record v { opened = v.next ∷ v.opened; next = v.next + 1 }

abbrev remove : ℕ → List ℕ → List ℕ
remove page [] = []
remove page (p ∷ pages) = if p == page then pages else p ∷ remove page pages

abbrev pub document : Document
document = record {
  elements = λ selector.
      if str_eq selector ".price"
      then 1 ∷ 2 ∷ []
      else if str_eq selector ".eta"
      then 3 ∷ []
      else if str_eq selector ".low"
      then 4 ∷ []
      else if str_eq selector ".variant"
      then 1 ∷ 3 ∷ []
      else [];
  text = λ el. if el == 1 then "₹ 1,029" else if el == 2 then "₹7" else " in 12 mins ";
  attribute = λ el a. some "/prn/milk/prid/19512";
}

abbrev done : Action Chrome (Unit {0})
done v = (ok tt, v)

abbrev reached : Bool → Result (Unit {0})
reached b = if b then ok tt else err timeout_error

abbrev pub chrome : Playwright Chrome
chrome = record {
  start = λ v. (ok 100, v);
  launch = λ driver v. (ok 200, v);
  new_page = λ browser v. (ok v.next, open_page v);
  goto = λ page url timeout v. (reached v.is_up, v);
  click = λ page selector timeout v. (err timeout_error, v);
  fill = λ page selector text. done;
  wait_for_selector = λ page selector timeout. done;
  query_selector = λ page selector v. (ok (first (document.elements selector)), v);
  query_selector_all = λ page selector v. (ok (document.elements selector), v);
  inner_text = λ el v. (ok (document.text el), v);
  get_attribute = λ el a v. (ok (document.attribute el a), v);
  close_page = λ page v. (ok tt, record v { opened = remove page v.opened });
  close_browser = λ browser. done;
  stop = λ driver. done;
}

abbrev pub digit_value : Char → Option ℕ
digit_value c = if leb 48 (code c) && leb (code c) 57 then some (code c - 48) else none

abbrev number : Option ℕ → ℕ
number none = 0
number (some n) = n

abbrev pub tools : Tools Chrome
tools = record {
  playwright = chrome;
  wait = λ w. w;
  retry = λ A n m. attempts (λ w. w) m n;
  retry-eq = λ A n m w. refl;
  utcnow = λ v. (ok 5, v);
  is_space = λ c. code c == 32;
  digit_value = digit_value;
  float = λ text. number (parse_int text);
  discount = λ price mrp. (mrp - price) * 100 / mrp;
}

abbrev page_of : Result ℕ → ℕ
page_of (ok page) = page
page_of (err e) = 0

remove_first : (page : ℕ) (all pages : List ℕ) → all ≡ page ∷ pages → remove page all ≡ pages
remove_first page all pages h = rw h (ground arith)

-- Nothing but opening and closing a page changes the state.
pub reads : {X : Type 0} (view : Chrome → X) → ReadLaws tools view
reads view = record {
  start-view = λ v. refl;
  launch-view = λ d v. refl;
  goto-view = λ p u n v. refl;
  click-view = λ p s n v. refl;
  fill-view = λ p s t v. refl;
  wait_for_selector-view = λ p s n v. refl;
  query_selector-view = λ p s v. refl;
  query_selector_all-view = λ p s v. refl;
  inner_text-view = λ el v. refl;
  get_attribute-view = λ el a v. refl;
  utcnow-view = λ v. refl;
  wait-view = λ w. refl;
}

pub laws : PageLaws tools (λ v. v.opened)
laws = record {
  reads = reads (λ v. v.opened);
  new_page-ok =
      λ browser page v v' h. sym (ap (λ p. p.1.opened) h) ∙ ap (λ p. page_of p.0 ∷ v.opened) h;
  new_page-err = λ browser e v v' h. absurd (ground (arith, ap (λ p. p.0) h));
  close_page-opened = λ page pages v h. remove_first page v.opened pages h;
}
