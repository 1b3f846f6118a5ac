-- ===== src/Providers/Closing.antt =====
-- What reads a page leaves the list of the open pages as it is.
use stock_monitoring.Common.{
  ℕ, zero, suc, String, Option, none, some, List, [], ◌∷◌, ◌≡◌, refl, ◌∙◌,
}
use stock_monitoring.Domain.Action.{Action, ◌>>=◌}
use stock_monitoring.Domain.Keeps.{Keeps, Keeps-pure, Keeps-bind}
use stock_monitoring.Domain.Errors.{Result, ok, err}
use stock_monitoring.Providers.Browser.{Tools, Own, attempts, again}
use stock_monitoring.Providers.Navigation.{except_timeout}
use stock_monitoring.Providers.Pages.{
  Shop, Selectors, stripped_text, stripped_texts, extract_number, check_availability_from_page,
  extract_price, extract_eta, extract_store, extract_image, extract_quantity, extract_variants,
  read_product,
}

again-keeps :
    {W X A : Type 0} (view : W → X) {x : X} (r next : Result A × W)
    → view r.1 ≡ x
    → view next.1 ≡ x
    → view (again r next).1 ≡ x
again-keeps view (ok a, w) next h k = h
again-keeps view (err e, w) next h k = k

module _ {W X : Type 0} {view : W → X} where
  pub Keeps-except_timeout :
      {A : Type 0} (a : A) (m : Action W A) → Keeps view m → Keeps view (except_timeout a m)
  Keeps-except_timeout a m km = record { at = λ w. km.at w }

  pub Keeps-attempts :
      {A : Type 0} (wait : W → W) (m : Action W A) (n : ℕ)
      → ((w : W) → view (wait w) ≡ view w)
      → Keeps view m
      → Keeps view (attempts wait m n)
  Keeps-attempts wait m n kw km = record { at = go n }
    where
      go : (n : ℕ) (w : W) → view (attempts wait m n w).1 ≡ view w
      go zero w = refl
      go (suc zero) w = again-keeps view (m w) _ (km.at w) (km.at w)
      go (suc (suc n)) w =
          again-keeps view (m w) _ (km.at w) (go (suc n) (wait (m w).1) ∙ (kw (m w).1 ∙ km.at w))

-- What is seen of the state stays as it is, whatever the browser does other than to open and to close
-- a page.
pub record ReadLaws {V X : Type 0} (tools : Tools V) (view : V → X) : Type 0 where
  pub start-view : (v : V) → view (tools.playwright.start v).1 ≡ view v
  pub launch-view : (d : ℕ) (v : V) → view (tools.playwright.launch d v).1 ≡ view v
  pub goto-view :
      (p : ℕ) (u : String) (n : ℕ) (v : V) → view (tools.playwright.goto p u n v).1 ≡ view v
  pub click-view :
      (p : ℕ) (s : String) (n : ℕ) (v : V) → view (tools.playwright.click p s n v).1 ≡ view v
  pub fill-view : (p : ℕ) (s t : String) (v : V) → view (tools.playwright.fill p s t v).1 ≡ view v
  pub wait_for_selector-view :
      (p : ℕ) (s : String) (n : ℕ) (v : V)
      → view (tools.playwright.wait_for_selector p s n v).1 ≡ view v
  pub query_selector-view :
      (p : ℕ) (s : String) (v : V) → view (tools.playwright.query_selector p s v).1 ≡ view v
  pub query_selector_all-view :
      (p : ℕ) (s : String) (v : V) → view (tools.playwright.query_selector_all p s v).1 ≡ view v
  pub inner_text-view : (el : ℕ) (v : V) → view (tools.playwright.inner_text el v).1 ≡ view v
  pub get_attribute-view :
      (el : ℕ) (a : String) (v : V) → view (tools.playwright.get_attribute el a v).1 ≡ view v
  pub utcnow-view : (v : V) → view (tools.utcnow v).1 ≡ view v
  pub wait-view : (w : Own V) → view (tools.wait w).1 ≡ view w.1

module _ {V X : Type 0} (tools : Tools V) (view : V → X) (laws : ReadLaws tools view) where
  open tools use {playwright}

  inner_text-Keeps : (el : ℕ) → Keeps view (playwright.inner_text el)
  inner_text-Keeps el = record { at = laws.inner_text-view el }

  query_selector-Keeps :
      (page : ℕ) (selector : String) → Keeps view (playwright.query_selector page selector)
  query_selector-Keeps page selector = record { at = laws.query_selector-view page selector }

  stripped_text-Keeps : (el : Option ℕ) → Keeps view (stripped_text tools el)
  unfolding stripped_text
  stripped_text-Keeps none = Keeps-pure none
  stripped_text-Keeps (some el) =
      Keeps-bind (playwright.inner_text el) _ (inner_text-Keeps el) (λ text. Keeps-pure _)

  stripped_texts-Keeps : (els : List ℕ) → Keeps view (stripped_texts tools els)
  unfolding stripped_texts
  stripped_texts-Keeps [] = Keeps-pure []
  stripped_texts-Keeps (el ∷ els) =
      Keeps-bind (playwright.inner_text el) _ (inner_text-Keeps el) (λ text.
        Keeps-bind (stripped_texts tools els) _ (stripped_texts-Keeps els) (λ texts. Keeps-pure _))

  -- A read of the first element that a selector finds.
  select-Keeps :
      {A : Type 0} (page : ℕ) (selector : String) (f : Option ℕ → Action V A)
      → Keeps view (f none)
      → ((el : ℕ) → Keeps view (f (some el)))
      → Keeps view (playwright.query_selector page selector >>= f)
  select-Keeps page selector f kn ks =
      Keeps-bind (playwright.query_selector page selector) f (query_selector-Keeps page selector) go
    where
      go : (o : Option ℕ) → Keeps view (f o)
      go none = kn
      go (some el) = ks el

  extract_number-Keeps :
      (page : ℕ) (selector : String) → Keeps view (extract_number tools page selector)
  unfolding extract_number
  extract_number-Keeps page selector =
      select-Keeps page selector _ (Keeps-pure none)
        (λ el. Keeps-bind (playwright.inner_text el) _ (inner_text-Keeps el) (λ text. Keeps-pure _))

  module _ (selectors : Selectors) (page : ℕ) where
    pub check_availability_from_page-Keeps :
        Keeps view (check_availability_from_page tools selectors page)
    unfolding check_availability_from_page
    check_availability_from_page-Keeps =
        select-Keeps page selectors.out_of_stock_badge _
          (select-Keeps page selectors.low_stock_badge _ (Keeps-pure _) (λ el. Keeps-pure _))
          (λ el. Keeps-pure _)

    extract_price-Keeps : Keeps view (extract_price tools selectors page)
    unfolding extract_price
    extract_price-Keeps =
        Keeps-bind (extract_number tools page selectors.price) _
          (extract_number-Keeps page selectors.price)
          (λ price.
            Keeps-bind (extract_number tools page selectors.mrp) _
              (extract_number-Keeps page selectors.mrp) (λ mrp. Keeps-pure _))

    extract_eta-Keeps : Keeps view (extract_eta tools selectors page)
    unfolding extract_eta
    extract_eta-Keeps =
        select-Keeps page selectors.eta _ (Keeps-pure none) (λ el.
          Keeps-bind (playwright.inner_text el) _ (inner_text-Keeps el) (λ text. Keeps-pure _))

    extract_store-Keeps : Keeps view (extract_store tools selectors page)
    unfolding extract_store
    extract_store-Keeps =
        Keeps-bind (playwright.query_selector page selectors.store) _
          (query_selector-Keeps page selectors.store) stripped_text-Keeps

    extract_image-Keeps : Keeps view (extract_image tools selectors page)
    unfolding extract_image
    extract_image-Keeps =
        select-Keeps page selectors.image _ (Keeps-pure none)
          (λ el. record { at = laws.get_attribute-view el "src" })

    extract_quantity-Keeps : Keeps view (extract_quantity tools selectors page)
    unfolding extract_quantity
    extract_quantity-Keeps =
        Keeps-bind (playwright.query_selector page selectors.quantity) _
          (query_selector-Keeps page selectors.quantity) stripped_text-Keeps

    extract_variants-Keeps : Keeps view (extract_variants tools selectors page)
    unfolding extract_variants
    extract_variants-Keeps =
        Keeps-bind (playwright.query_selector_all page selectors.variants) _
          (record { at = laws.query_selector_all-view page selectors.variants })
          stripped_texts-Keeps

  pub read_product-Keeps :
      (shop : Shop) (url : String) (page : ℕ) → Keeps view (read_product tools shop url page)
  unfolding read_product
  read_product-Keeps shop url page =
      let s = shop.selectors in
      Keeps-bind (playwright.query_selector page s.product_name) _
        (query_selector-Keeps page s.product_name)
        (λ name_el.
          Keeps-bind (stripped_text tools name_el) _ (stripped_text-Keeps name_el) (λ name.
            Keeps-bind (check_availability_from_page tools s page) _
              (check_availability_from_page-Keeps s page)
              (λ availability.
                Keeps-bind (extract_price tools s page) _ (extract_price-Keeps s page) (λ prices.
                  Keeps-bind (extract_eta tools s page) _ (extract_eta-Keeps s page) (λ eta.
                    Keeps-bind (extract_store tools s page) _ (extract_store-Keeps s page) (λ store.
                      Keeps-bind (extract_image tools s page) _ (extract_image-Keeps s page)
                        (λ image.
                          Keeps-bind (extract_quantity tools s page) _
                            (extract_quantity-Keeps s page)
                            (λ quantity.
                              Keeps-bind (extract_variants tools s page) _
                                (extract_variants-Keeps s page)
                                (λ variants.
                                  Keeps-bind tools.utcnow _ (record { at = laws.utcnow-view })
                                    (λ now. Keeps-pure _))))))))))
