-- ===== src/Tests/Providers.antt =====
-- Providers at work on concrete pages.
use stock_monitoring.Common.{
  List, length, ap, subst, ◌≤◌, ◌*◌, ◌+◌, ℕ, String, true, false, some, [], ◌∷◌, ◌≡◌, refl, arith,
}
use stock_monitoring.Common.Decimal.{str, parse_int}
use stock_monitoring.Domain.Entities.{LocationContext}
use stock_monitoring.Domain.Errors.{Result, ok, err, os_error}
use stock_monitoring.Providers.Browser.{Own}
use stock_monitoring.Providers.Methods.{methods_keep_pages, health_check-timeout}
use stock_monitoring.Providers.Navigation.{search_product, get_product, health_check, provider}
use stock_monitoring.Providers.Pages.{Shop, Selectors}
use stock_monitoring.Providers.Registry.{get, get_or_build, get-get_all}
use stock_monitoring.Common.Json.{Dict}
use stock_monitoring.Domain.Action.{Action}
use stock_monitoring.Providers.Retries.{VisitLaws}
use stock_monitoring.Providers.Visits.{search_product-bounded}
use stock_monitoring.Providers.Reading.{get_product-Shows}
use stock_monitoring.Providers.Documents.{Shows, product_of}
use stock_monitoring.Providers.Text.{search_int, search_number, remove_commas, strip}
use stock_monitoring.Providers.Text.RoundTrip.{search_int-str, ReadsDigits}
use stock_monitoring.Tests.Chrome.{
  reads as reads_view, Chrome, tools, laws, document, digit_value, open_page,
}

abbrev selectors : Selectors
selectors = record {
  location_trigger = ".location";
  location_input = "input";
  location_confirm = ".confirm";
  search_result_card = ".variant";
  product_name = "h1";
  price = ".price";
  mrp = ".price";
  eta = ".eta";
  store = ".store";
  image = ".eta";
  quantity = ".quantity";
  variants = ".variant";
  out_of_stock_badge = ".none";
  low_stock_badge = ".low";
}

abbrev shop : Shop
shop = record {
  slug = "blinkit";
  base_url = "https://b";
  search_url = "https://b/s/?q=";
  selectors = selectors;
}

abbrev pune : LocationContext
pune = record { city = "Pune"; pincode = "411001" }

abbrev up : Own Chrome
up = (
  record { playwright = some 100; browser = some 200 },
  record { opened = 7 ∷ []; next = 8; is_up = true },
)

abbrev down : Own Chrome
down = (up.0, record up.1 { is_up = false })

methods_keep_pages_example :
    let shop_provider = provider tools shop in
    ((shop_provider.initialize pune down).1.1.opened ≡ 7 ∷ [])
    × ((shop_provider.search_product "milk" down).1.1.opened ≡ 7 ∷ [])
    × ((shop_provider.get_product "https://b/milk" down).1.1.opened ≡ 7 ∷ [])
    × ((shop_provider.check_availability "https://b/milk" down).1.1.opened ≡ 7 ∷ [])
methods_keep_pages_example =
    methods_keep_pages tools (λ v. v.opened) laws shop pune "milk" "https://b/milk" down

health_check-timeout_example :
    let (r, w) = health_check tools shop down in (r ≡ ok false) × (w.1.opened ≡ 8 ∷ 7 ∷ [])
health_check-timeout_example =
    health_check-timeout tools (λ v. v.opened) laws shop 200 8 down (open_page down.1)
      (open_page down.1) refl refl refl

shows : (v : Chrome) → Shows tools 8 document 5 v
shows v = record {
  query_selector-eq = λ selector. refl;
  query_selector_all-eq = λ selector. refl;
  inner_text-eq = λ el. refl;
  get_attribute-eq = λ el a. refl;
  utcnow-eq = refl;
}

get_product-Shows_example :
    get_product tools shop "https://b/milk" up
    ≡ (ok (product_of tools document shop "https://b/milk" 5), (up.0, record up.1 { next = 9 }))
get_product-Shows_example =
    get_product-Shows tools shop "https://b/milk" document 5 200 8 up.0 up.1 (open_page up.1)
      (open_page up.1) (record up.1 { next = 9 }) refl refl refl (shows (open_page up.1)) refl

product_of_example :
    let product = product_of tools document shop "https://b/milk" 5 in
    (product.price ≡ some 1029)
    × (product.eta_minutes ≡ some 12)
    × (product.variants ≡ "₹ 1,029" ∷ "in 12 mins" ∷ [])
unfolding search_int search_number remove_commas strip parse_int
product_of_example = (refl, refl, refl)

reads : ReadsDigits digit_value
reads c h k = ground arith

search_int-str_example : search_int digit_value "in 12 mins" ≡ some 12
unfolding str
search_int-str_example =
    search_int-str digit_value 12 "in " " mins" reads (refl, (refl, (refl, tt))) refl

abbrev factories : Dict (Action ℕ ℕ)
factories = ("blinkit", λ n. (ok n, n + 1)) ∷ ("zepto", λ n. (err os_error, n + 1)) ∷ []

get-get_all_example :
    get factories "blinkit" ((("blinkit", 5) ∷ []), 7) ≡ (ok 5, ((("blinkit", 5) ∷ []), 7))
unfolding get get_or_build
get-get_all_example =
    get-get_all factories "blinkit" ("zepto" ∷ "none" ∷ []) (λ n. (ok n, n + 1)) 5 ([], 5)
      ((("blinkit", 5) ∷ []), 6) refl refl

visit_laws : VisitLaws tools (λ v. v.next)
visit_laws = record {
  reads = reads_view (λ v. v.next);
  new_page-visits = λ browser v. omega arith;
  close_page-visits = λ page v. refl;
}

abbrev size : Result (List ℕ) → ℕ
size (ok cards) = length cards
size (err e) = 0

few : (selector : String) → length (document.elements selector) ≤ 2
few selector = ground arith

search_product-bounded_example : (search_product tools shop "milk" up).1.1.next ≤ 8 + (9 * 2 + 3)
search_product-bounded_example =
    search_product-bounded tools (λ v. v.next) visit_laws shop "milk" 2 up
      (λ page selector v cards h. subst (λ n. n ≤ 2) (ap size h) (few selector))
