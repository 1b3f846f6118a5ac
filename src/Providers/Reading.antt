-- ===== src/Providers/Reading.antt =====
-- The product that a page shows: the extraction methods are functions of the document.
use stock_monitoring.Common.{ℕ, String, none, some, List, [], ◌∷◌, map, ◌≡◌, refl, inl, inr, ◌⊎◌}
use stock_monitoring.Domain.Entities.{Datetime, ProviderProductResult}
use stock_monitoring.Domain.Errors.{ok}
use stock_monitoring.Providers.Browser.{Tools, Handles}
use stock_monitoring.Providers.Navigation.{
  with_page, require_browser, get_product_once, get_product,
}
use stock_monitoring.Providers.Pages.{
  Shop, Selectors, stripped_text, stripped_texts, extract_number, discount_of,
  check_availability_from_page, extract_price, extract_eta, extract_store, extract_image,
  extract_quantity, extract_variants, read_product,
}
use stock_monitoring.Providers.Text.{strip}
use stock_monitoring.Providers.Documents.{
  Document, Shows, first, on_first, text_of, number_of, int_of, image_of, availability_of,
  product_of,
}

found-cases : (els : List ℕ) → (els ≡ []) ⊎ ((el : ℕ) × (els' : List ℕ) × (els ≡ el ∷ els'))
found-cases [] = inl refl
found-cases (el ∷ els) = inr (el, els, refl)

module _ {V : Type 0} (tools : Tools V) (document : Document) (now : Datetime) (page : ℕ) (v : V)
    (shows : Shows tools page document now v) where
  open document use {elements, text}

  stripped_text-Shows :
      (els : List ℕ)
      → stripped_text tools (first els) v
        ≡ (ok (on_first none (λ el. some (strip tools.is_space (text el))) els), v)
  unfolding stripped_text
  stripped_text-Shows [] = refl
  stripped_text-Shows (el ∷ els) = rw (shows.inner_text-eq el) refl

  stripped_texts-Shows :
      (els : List ℕ)
      → stripped_texts tools els v ≡ (ok (map (λ el. strip tools.is_space (text el)) els), v)
  unfolding stripped_texts
  stripped_texts-Shows [] = refl
  stripped_texts-Shows (el ∷ els) = rw (shows.inner_text-eq el, stripped_texts-Shows els) refl

  extract_number-Shows :
      (selector : String)
      → extract_number tools page selector v ≡ (ok (number_of tools document selector), v)
  unfolding extract_number
  extract_number-Shows selector = elim (found-cases (elements selector)) [
    | inl e ↦ rw (shows.query_selector-eq selector, e) refl
    | inr (el, els, e) ↦ rw (shows.query_selector-eq selector, e, shows.inner_text-eq el) refl
  ]

  module _ (s : Selectors) where
    check_availability_from_page-Shows :
        check_availability_from_page tools s page v ≡ (ok (availability_of tools document s), v)
    unfolding check_availability_from_page
    check_availability_from_page-Shows = elim (found-cases (elements s.out_of_stock_badge)) [
      | inl e ↦ elim (found-cases (elements s.low_stock_badge)) [
        | inl e' ↦
            rw
              (
                shows.query_selector-eq s.out_of_stock_badge,
                e,
                shows.query_selector-eq s.low_stock_badge,
                e',
              )
              refl
        | inr (el, els, e') ↦
            rw
              (
                shows.query_selector-eq s.out_of_stock_badge,
                e,
                shows.query_selector-eq s.low_stock_badge,
                e',
              )
              refl
      ]
      | inr (el, els, e) ↦ rw (shows.query_selector-eq s.out_of_stock_badge, e) refl
    ]

    extract_price-Shows :
        let price = number_of tools document s.price in
        let mrp = number_of tools document s.mrp in
        extract_price tools s page v
        ≡ (ok (record { price = price; mrp = mrp; discount_pct = discount_of tools price mrp }), v)
    unfolding extract_price
    extract_price-Shows = rw (extract_number-Shows s.price, extract_number-Shows s.mrp) refl

    extract_eta-Shows : extract_eta tools s page v ≡ (ok (int_of tools document s.eta), v)
    unfolding extract_eta
    extract_eta-Shows = elim (found-cases (elements s.eta)) [
      | inl e ↦ rw (shows.query_selector-eq s.eta, e) refl
      | inr (el, els, e) ↦ rw (shows.query_selector-eq s.eta, e, shows.inner_text-eq el) refl
    ]

    extract_store-Shows : extract_store tools s page v ≡ (ok (text_of tools document s.store), v)
    unfolding extract_store
    extract_store-Shows =
        rw (shows.query_selector-eq s.store) (stripped_text-Shows (elements s.store))

    extract_image-Shows : extract_image tools s page v ≡ (ok (image_of tools document s.image), v)
    unfolding extract_image
    extract_image-Shows = elim (found-cases (elements s.image)) [
      | inl e ↦ rw (shows.query_selector-eq s.image, e) refl
      | inr (el, els, e) ↦
          rw (shows.query_selector-eq s.image, e, shows.get_attribute-eq el "src") refl
    ]

    extract_quantity-Shows :
        extract_quantity tools s page v ≡ (ok (text_of tools document s.quantity), v)
    unfolding extract_quantity
    extract_quantity-Shows =
        rw (shows.query_selector-eq s.quantity) (stripped_text-Shows (elements s.quantity))

    extract_variants-Shows :
        extract_variants tools s page v
        ≡ (ok (map (λ el. strip tools.is_space (text el)) (elements s.variants)), v)
    unfolding extract_variants
    extract_variants-Shows =
        rw (shows.query_selector_all-eq s.variants) (stripped_texts-Shows (elements s.variants))

  pub read_product-Shows :
      (shop : Shop) (url : String)
      → read_product tools shop url page v ≡ (ok (product_of tools document shop url now), v)
  unfolding read_product
  read_product-Shows shop url =
      let s = shop.selectors in
      rw
        (
          shows.query_selector-eq s.product_name,
          stripped_text-Shows (elements s.product_name),
          check_availability_from_page-Shows s,
          extract_price-Shows s,
          extract_eta-Shows s,
          extract_store-Shows s,
          extract_image-Shows s,
          extract_quantity-Shows s,
          extract_variants-Shows s,
          shows.utcnow-eq,
        )
        refl

-- If a provider has a browser, a new page opens in it and reaches the address, and the page shows a
-- document and can be closed: `get_product` succeeds at its first attempt, with the product that the
-- document tells of, and with the page closed.
pub get_product-Shows :
    {V : Type 0} (tools : Tools V) (shop : Shop) (url : String) (document : Document)
    (now : Datetime) (browser page : ℕ) (h : Handles) (v opened_v loaded_v closed_v : V)
    → h.browser ≡ some browser
    → tools.playwright.new_page browser v ≡ (ok page, opened_v)
    → tools.playwright.goto page url 30000 opened_v ≡ (ok tt, loaded_v)
    → Shows tools page document now loaded_v
    → tools.playwright.close_page page loaded_v ≡ (ok tt, closed_v)
    → get_product tools shop url (h, v)
      ≡ (ok (product_of tools document shop url now), (h, closed_v))
unfolding get_product get_product_once require_browser with_page
get_product-Shows tools shop url document now browser page h v opened_v loaded_v closed_v eh en eg
      shows ec =
    rw
      (
        tools.retry-eq ProviderProductResult 3 _ (h, v),
        eh,
        en,
        eg,
        read_product-Shows tools document now page loaded_v shows shop url,
        ec,
      )
      refl
