-- ===== src/Providers/Visits.antt =====
-- How often a provider opens a page: the retries of a search contain those of its products.
use Prim.Native.String.{◌++◌}
use stock_monitoring.Common.{
  subst, ℕ, suc, ◌+◌, ◌*◌, ◌≤◌, String, Option, none, some, List, [], ◌∷◌, length, ◌≡◌, refl, ap,
  arith,
}
use stock_monitoring.Domain.Action.{Action, pure, continue, ◌>>=◌}
use stock_monitoring.Domain.Errors.{Result, ok, err}
use stock_monitoring.Providers.Browser.{Tools, Own, on_page}
use stock_monitoring.Providers.Closing.{read_product-Keeps}
use stock_monitoring.Providers.Navigation.{
  with_page, require_browser, get_product_once, get_product, card_urls, get_products, truthy_urls,
  search_product_once, search_product,
}
use stock_monitoring.Providers.Pages.{Shop}
use stock_monitoring.Providers.Steps.{
  on_page-Keeps, goto-Keeps, require_browser-Keeps, card_urls-Keeps,
}
use stock_monitoring.Providers.Retries.{
  VisitLaws, Opens, count, Keeps-Opens, widen, bind-Opens, then-Opens, retry-Opens,
  after_finally-count,
}

module _ {V : Type 0} (tools : Tools V) (visits : V → ℕ) (laws : VisitLaws tools visits) where
  open tools use {playwright}

  module _ (shop : Shop) where
    with_page-Opens :
        {A : Type 0} (k browser : ℕ) (body : ℕ → Action (Own V) A)
        → ((page : ℕ) → Opens tools visits laws k (body page))
        → Opens tools visits laws (1 + k) (with_page tools shop browser body)
    unfolding with_page
    with_page-Opens k browser body kb =
        then-Opens tools visits laws 1 k (on_page (playwright.new_page browser)) _
          (record { at = λ w. laws.new_page-visits browser w.1 })
          (λ page. record {
            at = λ w. omega (
              arith,
              (kb page).at w,
              after_finally-count tools visits laws (body page w).0
                  (on_page (playwright.close_page page) (body page w).1),
              laws.close_page-visits page (body page w).1.1,
            );
          })

    -- A method that reads a page in the browser.
    in_browser-Opens :
        {A : Type 0} (k : ℕ) (body : ℕ → Action (Own V) A)
        → ((page : ℕ) → Opens tools visits laws k (body page))
        → Opens tools visits laws
            (1 + k)
            (require_browser tools shop >>= λ browser. with_page tools shop browser body)
    in_browser-Opens k body kb = widen tools visits laws (0 + (1 + k)) (1 + k) _ (omega arith) (
        then-Opens tools visits laws 0 (1 + k) (require_browser tools shop) _
          (Keeps-Opens tools visits laws (require_browser tools shop)
            (require_browser-Keeps tools visits laws.reads shop))
          (λ browser. with_page-Opens k browser body kb))

    goto-Opens :
        (page : ℕ) (url : String) (timeout : ℕ)
        → Opens tools visits laws 0 (on_page (playwright.goto page url timeout))
    goto-Opens page url timeout =
        Keeps-Opens tools visits laws _ (goto-Keeps tools visits laws.reads shop page url timeout)

    get_product-Opens : (url : String) → Opens tools visits laws 3 (get_product tools shop url)
    unfolding get_product get_product_once
    get_product-Opens url = retry-Opens tools visits laws 1 3 (get_product_once tools shop url) (
        in_browser-Opens 0 _ (λ page.
          then-Opens tools visits laws 0 0 (on_page (playwright.goto page url 30000)) _
            (goto-Opens page url 30000)
            (λ _. Keeps-Opens tools visits laws _ (
              on_page-Keeps tools visits laws.reads _
                (read_product-Keeps tools visits laws.reads shop url page)))))

    get_products-Opens :
        (urls : List String)
        → Opens tools visits laws (3 * length urls) (get_products tools shop urls)
    unfolding get_products
    get_products-Opens [] = record { at = λ w. omega arith }
    get_products-Opens (url ∷ urls) =
        widen tools visits laws (3 + (3 * length urls + 0)) (3 * length (url ∷ urls)) _
          (omega arith)
          (then-Opens tools visits laws 3 (3 * length urls + 0)
            (get_product tools shop (shop.base_url ++ url)) _
            (get_product-Opens (shop.base_url ++ url))
            (λ product.
              then-Opens tools visits laws (3 * length urls) 0 (get_products tools shop urls) _
                (get_products-Opens urls) (λ products. record { at = λ w. omega arith })))

    -- There is an address at most for each card.
    truthy_urls-length : (urls : List (Option String)) → length (truthy_urls urls) ≤ length urls
    truthy_urls-length [] = omega arith
    truthy_urls-length (none ∷ urls) = omega (arith, truthy_urls-length urls)
    truthy_urls-length (some String.[] ∷ urls) = omega (arith, truthy_urls-length urls)
    truthy_urls-length (some (String.◌∷◌ c url) ∷ urls) = omega (arith, truthy_urls-length urls)

    -- A result of a list of a known length.
    abbrev HasLength : ℕ → Result (List (Option String)) → Type 0
    HasLength n (ok urls) = length urls ≡ n
    HasLength n (err e) = Unit

    HasLength-continue :
        (n : ℕ) (r : Result (Option String)) (rest : V → Result (List (Option String)) × V) (v : V)
        → ((v : V) → HasLength n (rest v).0)
        → HasLength (suc n) (continue r (λ url. rest >>= λ urls. pure (url ∷ urls)) v).0
    HasLength-continue n (ok url) rest v h = grown (rest v).0 (rest v).1 (h v)
      where
        grown :
            (r : Result (List (Option String))) (v : V)
            → HasLength n r
            → HasLength (suc n) (continue r (λ urls. pure (url ∷ urls)) v).0
        grown (ok urls) v h = ap suc h
        grown (err e) v h = tt
    HasLength-continue n (err e) rest v h = tt

    card_urls-HasLength :
        (cards : List ℕ) (v : V) → HasLength (length cards) (card_urls tools shop cards v).0
    unfolding card_urls
    card_urls-HasLength [] v = refl
    card_urls-HasLength (card ∷ cards) v =
        let (url, v') = playwright.get_attribute card "href" v in
        HasLength-continue (length cards) url (card_urls tools shop cards) v'
          (card_urls-HasLength cards)

    card_urls-length :
        (cards : List ℕ) (v : V) (urls : List (Option String))
        → (card_urls tools shop cards v).0 ≡ ok urls
        → length urls ≡ length cards
    card_urls-length cards v urls h =
        subst (HasLength (length cards)) h (card_urls-HasLength cards v)

    search_product_once-Opens :
        (keyword : String) (n : ℕ)
        → ((page : ℕ) (selector : String) (v : V) (cards : List ℕ)
            → (playwright.query_selector_all page selector v).0 ≡ ok cards
            → length cards ≤ n)
        → Opens tools visits laws (1 + 3 * n) (search_product_once tools shop keyword)
    unfolding search_product_once
    search_product_once-Opens keyword n few =
        let card = shop.selectors.search_result_card in
        in_browser-Opens (3 * n) _ (λ page.
          widen tools visits laws (0 + (0 + (0 + (0 + 3 * n)))) (3 * n) _ (omega arith) (
            then-Opens tools visits laws 0 (0 + (0 + (0 + 3 * n)))
              (on_page (playwright.goto page (shop.search_url ++ keyword) 30000)) _
              (goto-Opens page _ 30000)
              (λ _.
                then-Opens tools visits laws 0 (0 + (0 + 3 * n))
                  (on_page (playwright.wait_for_selector page card 10000)) _
                  (Keeps-Opens tools visits laws _
                    (record { at = λ w. laws.reads.wait_for_selector-view page card 10000 w.1 }))
                  (λ _.
                    bind-Opens tools visits laws 0 (0 + 3 * n) (λ cards. length cards ≤ n)
                      (on_page (playwright.query_selector_all page card)) _
                      (Keeps-Opens tools visits laws _
                        (record { at = λ w. laws.reads.query_selector_all-view page card w.1 }))
                      (λ cards w h. few page card w.1 cards h)
                      (λ cards le.
                        bind-Opens tools visits laws 0 (3 * n) (λ urls. length urls ≡ length cards)
                          (on_page (card_urls tools shop cards)) _
                          (Keeps-Opens tools visits laws _ (
                            on_page-Keeps tools visits laws.reads _
                              (card_urls-Keeps tools visits laws.reads shop cards)))
                          (λ urls w h. card_urls-length cards w.1 urls h)
                          (λ urls same.
                            widen tools visits laws (3 * length (truthy_urls urls)) (3 * n) _
                              (omega (arith, truthy_urls-length urls, same, le))
                              (get_products-Opens (truthy_urls urls))))))))

    -- If a result page never shows more than `n` cards: a search opens at most `9 * n + 3` pages,
    -- however often its attempts and those of the products that it finds fail.
    pub search_product-bounded :
        (keyword : String) (n : ℕ) (w : Own V)
        → ((page : ℕ) (selector : String) (v : V) (cards : List ℕ)
            → (playwright.query_selector_all page selector v).0 ≡ ok cards
            → length cards ≤ n)
        → count tools visits laws (search_product tools shop keyword w).1
          ≤ count tools visits laws w + (9 * n + 3)
    unfolding search_product
    search_product-bounded keyword n w few = omega (
      arith,
      (retry-Opens tools visits laws (1 + 3 * n) 3 (search_product_once tools shop keyword)
            (search_product_once-Opens keyword n few)).at
          w,
    )
