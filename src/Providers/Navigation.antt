-- ===== src/Providers/Navigation.antt =====
-- How a provider gets to a page: its browser, its pages, and the retries.
use Prim.Native.String.{◌++◌}
use stock_monitoring.Common.{
  ℕ, String, Bool, true, false, Option, none, some, List, [], ◌∷◌, if◌then◌else◌,
}
use stock_monitoring.Domain.Action.{Action, finally, pure, require, ◌>>=◌, ◌>>◌}
use stock_monitoring.Domain.Entities.{LocationContext, ProviderProductResult}
use stock_monitoring.Domain.Enums.{Availability}
use stock_monitoring.Domain.Errors.{Error, Result, ok, err, assertion_error}
use stock_monitoring.Domain.Ports.{BaseRetailProvider}
use stock_monitoring.Providers.Browser.{Tools, Own, on_page, get_handles, set_handles}
use stock_monitoring.Providers.Pages.{Shop, read_product, check_availability_from_page}

-- `except PlaywrightTimeoutError`
abbrev pub is_timeout : Error → Bool
is_timeout Error.timeout_error = true
is_timeout _ = false

abbrev pub on_timeout : {A : Type 0} → A → Result A → Result A
on_timeout a (ok b) = ok b
on_timeout a (err e) = if is_timeout e then ok a else err e

abbrev pub except_timeout : {W A : Type 0} → A → Action W A → Action W A
except_timeout a m w = let (r, w') = m w in (on_timeout a r, w')

-- A card's address, and whether there is one: `if url`.
abbrev pub truthy_urls : List (Option String) → List String
truthy_urls [] = []
truthy_urls (none ∷ urls) = truthy_urls urls
truthy_urls (some String.[] ∷ urls) = truthy_urls urls
truthy_urls (some (String.◌∷◌ c url) ∷ urls) = String.◌∷◌ c url ∷ truthy_urls urls

module _ {V : Type 0} (tools : Tools V) (shop : Shop) where
  open tools use {playwright, retry}

  -- A page that is open for the length of a block.
  unfoldable pub with_page : {A : Type 0} → ℕ → (ℕ → Action (Own V) A) → Action (Own V) A
  with_page browser body = do
    page ← on_page (playwright.new_page browser)
    finally (body page) (on_page (playwright.close_page page))

  -- `if self._browser is None` of `initialize`: the driver is kept before the browser is launched.
  unfoldable pub ensure_browser : Option ℕ → Action (Own V) ℕ
  ensure_browser (some browser) = pure browser
  ensure_browser none = do
    driver ← on_page playwright.start
    set_handles (record { playwright = some driver; browser = none })
    browser ← on_page (playwright.launch driver)
    set_handles (record { playwright = some driver; browser = some browser })
    pure browser

  -- The clicks that set the location.
  unfoldable pub set_location : LocationContext → ℕ → Action V (Unit {0})
  set_location location page = do
    playwright.click page shop.selectors.location_trigger 5000
    playwright.fill page shop.selectors.location_input location.pincode
    playwright.click page shop.selectors.location_confirm 5000

  unfoldable pub initialize : LocationContext → Action (Own V) (Unit {0})
  unfolding ensure_browser with_page
  initialize location = do
    handles ← get_handles
    browser ← ensure_browser handles.browser
    with_page browser (λ page. do
      on_page (playwright.goto page shop.base_url 30000)
      on_page (except_timeout tt (set_location location page)))

  -- `assert self._browser is not None`
  unfoldable pub require_browser : Action (Own V) ℕ
  require_browser = do handles ← get_handles; require assertion_error handles.browser

  -- `get_product` without its retries.
  unfoldable pub get_product_once : String → Action (Own V) ProviderProductResult
  unfolding require_browser with_page
  get_product_once product_url = do
    browser ← require_browser
    with_page browser (λ page. do
      on_page (playwright.goto page product_url 30000)
      on_page (read_product tools shop product_url page))

  unfoldable pub get_product : String → Action (Own V) ProviderProductResult
  get_product product_url = retry ProviderProductResult 3 (get_product_once product_url)

  -- `[await card.get_attribute("href") for card in cards]`
  unfoldable pub card_urls : List ℕ → Action V (List (Option String))
  card_urls [] = pure []
  card_urls (card ∷ cards) = do
    url ← playwright.get_attribute card "href"
    urls ← card_urls cards
    pure (url ∷ urls)

  -- `[await self.get_product(f"{BASE_URL}{url}") for url in urls if url]`
  unfoldable pub get_products : List String → Action (Own V) (List ProviderProductResult)
  get_products [] = pure []
  get_products (url ∷ urls) = do
    product ← get_product (shop.base_url ++ url)
    products ← get_products urls
    pure (product ∷ products)

  -- `search_product` without its retries.
  unfoldable pub search_product_once : String → Action (Own V) (List ProviderProductResult)
  unfolding require_browser with_page
  search_product_once keyword = do
    browser ← require_browser
    with_page browser (λ page. do
      on_page (playwright.goto page (shop.search_url ++ keyword) 30000)
      on_page (playwright.wait_for_selector page shop.selectors.search_result_card 10000)
      cards ← on_page (playwright.query_selector_all page shop.selectors.search_result_card)
      urls ← on_page (card_urls cards)
      get_products (truthy_urls urls))

  unfoldable pub search_product : String → Action (Own V) (List ProviderProductResult)
  search_product keyword = retry (List ProviderProductResult) 3 (search_product_once keyword)

  unfoldable pub check_availability : String → Action (Own V) Availability
  unfolding require_browser with_page
  check_availability product_url = do
    browser ← require_browser
    with_page browser (λ page. do
      on_page (playwright.goto page product_url 30000)
      on_page (check_availability_from_page tools shop.selectors page))

  -- `try` of `health_check`: the page is closed only if the navigation succeeds.
  unfoldable pub reach : ℕ → Action (Own V) Bool
  reach browser = do
    page ← on_page (playwright.new_page browser)
    on_page (playwright.goto page shop.base_url 10000)
    on_page (playwright.close_page page)
    pure true

  unfoldable pub health_check : Action (Own V) Bool
  unfolding reach
  health_check = do
    handles ← get_handles
    elim handles.browser [ none ↦ pure false | some browser ↦ except_timeout false (reach browser) ]

  unfoldable pub close_browser : Option ℕ → Action (Own V) (Unit {0})
  close_browser none = pure tt
  close_browser (some browser) = do
    on_page (playwright.close_browser browser)
    handles ← get_handles
    set_handles (record handles { browser = none })

  unfoldable pub stop_playwright : Option ℕ → Action (Own V) (Unit {0})
  stop_playwright none = pure tt
  stop_playwright (some driver) = do
    on_page (playwright.stop driver)
    handles ← get_handles
    set_handles (record handles { playwright = none })

  unfoldable pub close : Action (Own V) (Unit {0})
  unfolding close_browser stop_playwright
  close = do
    handles ← get_handles
    close_browser handles.browser
    handles ← get_handles
    stop_playwright handles.playwright

  abbrev pub provider : BaseRetailProvider (Own V)
  provider = record {
    initialize = initialize;
    search_product = search_product;
    get_product = get_product;
    check_availability = check_availability;
    health_check = health_check;
    close = close;
  }
