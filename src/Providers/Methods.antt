-- ===== src/Providers/Methods.antt =====
-- Which pages are open: every method but `health_check` closes the pages that it opens.
use Prim.Native.String.{◌++◌}
use stock_monitoring.Common.{sym, ap, false, ℕ, String, some, List, [], ◌∷◌, ◌≡◌, refl, ◌∙◌}
use stock_monitoring.Domain.Action.{after_finally, Action, ◌>>=◌}
use stock_monitoring.Domain.Entities.{LocationContext, ProviderProductResult}
use stock_monitoring.Domain.Errors.{Error, Result, ok, err, timeout_error}
use stock_monitoring.Providers.Browser.{Tools, Own, on_page, get_handles}
use stock_monitoring.Domain.Keeps.{Keeps, Keeps-pure, Keeps-bind}
use stock_monitoring.Providers.Closing.{
  Keeps-except_timeout, Keeps-attempts, ReadLaws, check_availability_from_page-Keeps,
  read_product-Keeps,
}
use stock_monitoring.Providers.Navigation.{
  except_timeout, with_page, ensure_browser, set_location, initialize, require_browser,
  get_product_once, get_product, card_urls, get_products, truthy_urls, search_product_once,
  search_product, check_availability, reach, health_check, provider,
}
use stock_monitoring.Providers.Steps.{
  on_page-Keeps, get_handles-Keeps, set_location-Keeps, ensure_browser-Keeps, goto-Keeps,
  require_browser-Keeps, card_urls-Keeps,
}
use stock_monitoring.Providers.Pages.{Shop, check_availability_from_page, read_product}

-- What is documented of pages: `opened` lists the open ones, the newest first. A page is added by
-- `new_page`, if that does not raise, and is gone after `close`; nothing else touches the list.
pub record PageLaws {V : Type 0} (tools : Tools V) (opened : V → List ℕ) : Type 0 where
  pub reads : ReadLaws tools opened
  pub new_page-ok :
      (browser page : ℕ) (v v' : V)
      → tools.playwright.new_page browser v ≡ (ok page, v')
      → opened v' ≡ page ∷ opened v
  pub new_page-err :
      (browser : ℕ) (e : Error) (v v' : V)
      → tools.playwright.new_page browser v ≡ (err e, v')
      → opened v' ≡ opened v
  pub close_page-opened :
      (page : ℕ) (pages : List ℕ) (v : V)
      → opened v ≡ page ∷ pages
      → opened (tools.playwright.close_page page v).1 ≡ pages

module _ {V : Type 0} (tools : Tools V) (opened : V → List ℕ) (laws : PageLaws tools opened) where
  open tools use {playwright}

  abbrev pub pages : Own V → List ℕ
  pages w = opened w.1

  after_finally-pages :
      {A : Type 0} (r : Result A) (x : Result (Unit {0}) × Own V)
      → pages (after_finally r x).1 ≡ pages x.1
  after_finally-pages r (ok _, w) = refl
  after_finally-pages r (err e, w) = refl

  module _ (shop : Shop) where
    -- The page of a block is closed when the block is left, if the block leaves the others as they are.
    with_page-at :
        {A : Type 0} (browser : ℕ) (body : ℕ → Action (Own V) A)
        → ((page : ℕ) → Keeps pages (body page))
        → (w : Own V) (r : Result ℕ × V) → playwright.new_page browser w.1 ≡ r
        → pages (with_page tools shop browser body w).1 ≡ pages w
    unfolding with_page
    with_page-at browser body kb w (err e, v) eq = rw (eq) (laws.new_page-err browser e w.1 v eq)
    with_page-at browser body kb w (ok page, v) eq = rw (eq) (
        after_finally-pages (body page (w.0, v)).0 _
        ∙ laws.close_page-opened page (opened w.1) (body page (w.0, v)).1.1
            ((kb page).at (w.0, v) ∙ laws.new_page-ok browser page w.1 v eq))

    with_page-Keeps :
        {A : Type 0} (browser : ℕ) (body : ℕ → Action (Own V) A)
        → ((page : ℕ) → Keeps pages (body page))
        → Keeps pages (with_page tools shop browser body)
    with_page-Keeps browser body kb = record { at = λ w. with_page-at browser body kb w _ refl }

    pub initialize-Keeps :
        (location : LocationContext) → Keeps pages (initialize tools shop location)
    unfolding initialize
    initialize-Keeps location =
        Keeps-bind get_handles _ (get_handles-Keeps tools opened laws.reads) (λ handles.
          Keeps-bind (ensure_browser tools shop handles.browser) _
            (ensure_browser-Keeps tools opened laws.reads shop handles.browser)
            (λ browser. with_page-Keeps browser _ (λ page.
              Keeps-bind (on_page (playwright.goto page shop.base_url 30000)) _
                (goto-Keeps tools opened laws.reads shop page shop.base_url 30000)
                (λ _.
                  on_page-Keeps tools opened laws.reads
                    (except_timeout tt (set_location tools shop location page))
                    (Keeps-except_timeout tt (set_location tools shop location page)
                      (set_location-Keeps tools opened laws.reads shop location page))))))

    -- A method that reads a page in the browser.
    in_browser-Keeps :
        {A : Type 0} (body : ℕ → Action (Own V) A)
        → ((page : ℕ) → Keeps pages (body page))
        → Keeps pages (require_browser tools shop >>= λ browser. with_page tools shop browser body)
    in_browser-Keeps body kb =
        Keeps-bind (require_browser tools shop) _
          (require_browser-Keeps tools opened laws.reads shop)
          (λ browser. with_page-Keeps browser body kb)

    retry-Keeps :
        (A : Type 0) (n : ℕ) (m : Action (Own V) A)
        → Keeps pages m
        → Keeps pages (tools.retry A n m)
    retry-Keeps A n m km = record {
      at = λ w.
          rw (tools.retry-eq A n m w)
            ((Keeps-attempts tools.wait m n laws.reads.wait-view km).at w);
    }

    get_product_once-Keeps : (url : String) → Keeps pages (get_product_once tools shop url)
    unfolding get_product_once
    get_product_once-Keeps url = in_browser-Keeps _ (λ page.
        Keeps-bind (on_page (playwright.goto page url 30000)) _
          (goto-Keeps tools opened laws.reads shop page url 30000)
          (λ _.
            on_page-Keeps tools opened laws.reads (read_product tools shop url page)
              (read_product-Keeps tools opened laws.reads shop url page)))

    pub get_product-Keeps : (url : String) → Keeps pages (get_product tools shop url)
    unfolding get_product
    get_product-Keeps url = retry-Keeps ProviderProductResult 3 _ (get_product_once-Keeps url)

    get_products-Keeps : (urls : List String) → Keeps pages (get_products tools shop urls)
    unfolding get_products
    get_products-Keeps [] = Keeps-pure []
    get_products-Keeps (url ∷ urls) =
        Keeps-bind (get_product tools shop (shop.base_url ++ url)) _
          (get_product-Keeps (shop.base_url ++ url))
          (λ product.
            Keeps-bind (get_products tools shop urls) _ (get_products-Keeps urls)
              (λ products. Keeps-pure _))

    search_product_once-Keeps :
        (keyword : String) → Keeps pages (search_product_once tools shop keyword)
    unfolding search_product_once
    search_product_once-Keeps keyword =
        let card = shop.selectors.search_result_card in
        in_browser-Keeps _ (λ page.
          Keeps-bind (on_page (playwright.goto page (shop.search_url ++ keyword) 30000)) _
            (goto-Keeps tools opened laws.reads shop page _ 30000)
            (λ _.
              Keeps-bind (on_page (playwright.wait_for_selector page card 10000)) _
                (on_page-Keeps tools opened laws.reads _
                  (record { at = laws.reads.wait_for_selector-view page card 10000 }))
                (λ _.
                  Keeps-bind (on_page (playwright.query_selector_all page card)) _
                    (on_page-Keeps tools opened laws.reads _
                      (record { at = laws.reads.query_selector_all-view page card }))
                    (λ cards.
                      Keeps-bind (on_page (card_urls tools shop cards)) _
                        (on_page-Keeps tools opened laws.reads _
                          (card_urls-Keeps tools opened laws.reads shop cards))
                        (λ urls. get_products-Keeps (truthy_urls urls))))))

    pub search_product-Keeps : (keyword : String) → Keeps pages (search_product tools shop keyword)
    unfolding search_product
    search_product-Keeps keyword =
        retry-Keeps (List ProviderProductResult) 3 _ (search_product_once-Keeps keyword)

    pub check_availability-Keeps : (url : String) → Keeps pages (check_availability tools shop url)
    unfolding check_availability
    check_availability-Keeps url = in_browser-Keeps _ (λ page.
        Keeps-bind (on_page (playwright.goto page url 30000)) _
          (goto-Keeps tools opened laws.reads shop page url 30000)
          (λ _.
            on_page-Keeps tools opened laws.reads
              (check_availability_from_page tools shop.selectors page)
              (check_availability_from_page-Keeps tools opened laws.reads shop.selectors page)))

    -- Given the documented laws of pages: a provider's `initialize`, `search_product`, `get_product` and
    -- `check_availability` leave the list of open pages as they find it, whatever they return or raise,
    -- in the repeated attempts and in the searches that open a page while another one is open too.
    pub methods_keep_pages :
        (location : LocationContext) (keyword url : String) (w : Own V)
        → let shop_provider = provider tools shop in
          (pages (shop_provider.initialize location w).1 ≡ pages w)
          × (pages (shop_provider.search_product keyword w).1 ≡ pages w)
          × (pages (shop_provider.get_product url w).1 ≡ pages w)
          × (pages (shop_provider.check_availability url w).1 ≡ pages w)
    methods_keep_pages location keyword url w = (
      (initialize-Keeps location).at w,
      (search_product-Keeps keyword).at w,
      (get_product-Keeps url).at w,
      (check_availability-Keeps url).at w,
    )

    -- A health check on a page that times out answers false, and leaves the page that it opened open.
    pub health_check-timeout :
        (browser page : ℕ) (w : Own V) (v v' : V)
        → w.0.browser ≡ some browser
        → playwright.new_page browser w.1 ≡ (ok page, v)
        → playwright.goto page shop.base_url 10000 v ≡ (err timeout_error, v')
        → let (r, w') = health_check tools shop w in (r ≡ ok false) × (pages w' ≡ page ∷ pages w)
    unfolding health_check reach
    health_check-timeout browser page w v v' has_browser new_page goto =
        rw (has_browser, new_page, goto)
          (
            refl,
            ap (λ r. opened r.1) (sym goto)
                ∙ (laws.reads.goto-view page shop.base_url 10000 v
                    ∙ laws.new_page-ok browser page w.1 v new_page),
          )
