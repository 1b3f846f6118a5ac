-- ===== src/Providers/Documents.antt =====
-- The product that a document tells of, without a browser.
use stock_monitoring.Common.{ℕ, String, Option, none, some, List, [], ◌∷◌, map, ◌≡◌}
use stock_monitoring.Domain.Entities.{Datetime, Float, ProviderProductResult}
use stock_monitoring.Domain.Enums.{Availability}
use stock_monitoring.Domain.Errors.{ok}
use stock_monitoring.Providers.Browser.{Tools}
use stock_monitoring.Providers.Pages.{Shop, Selectors, to_float, discount_of, name_or_empty}
use stock_monitoring.Providers.Text.{strip, search_int, remove_commas, search_number}

-- A document: the elements that a selector finds, in their order, and what an element holds.
pub record Document : Type 0 where
  pub elements : String → List ℕ
  pub text : ℕ → String
  pub attribute : ℕ → String → Option String

abbrev pub first : List ℕ → Option ℕ
first [] = none
first (el ∷ els) = some el

-- A page whose document does not change while it is read.
pub record Shows {V : Type 0} (tools : Tools V) (page : ℕ) (document : Document) (now : Datetime)
    (v : V) : Type 0 where
  pub query_selector-eq :
      (selector : String)
      → tools.playwright.query_selector page selector v
        ≡ (ok (first (document.elements selector)), v)
  pub query_selector_all-eq :
      (selector : String)
      → tools.playwright.query_selector_all page selector v ≡ (ok (document.elements selector), v)
  pub inner_text-eq : (el : ℕ) → tools.playwright.inner_text el v ≡ (ok (document.text el), v)
  pub get_attribute-eq :
      (el : ℕ) (a : String)
      → tools.playwright.get_attribute el a v ≡ (ok (document.attribute el a), v)
  pub utcnow-eq : tools.utcnow v ≡ (ok now, v)

abbrev pub on_first : {A : Type 0} → A → (ℕ → A) → List ℕ → A
on_first a f [] = a
on_first a f (el ∷ els) = f el

module _ {V : Type 0} (tools : Tools V) (document : Document) where
  open tools use {is_space, digit_value, float}
  open document use {elements, text, attribute}

  abbrev pub text_of : String → Option String
  text_of selector = on_first none (λ el. some (strip is_space (text el))) (elements selector)

  abbrev pub number_of : String → Option Float
  number_of selector =
      on_first none (λ el. to_float float (search_number digit_value (remove_commas (text el))))
        (elements selector)

  abbrev pub int_of : String → Option ℕ
  int_of selector = on_first none (λ el. search_int digit_value (text el)) (elements selector)

  abbrev pub image_of : String → Option String
  image_of selector = on_first none (λ el. attribute el "src") (elements selector)

  -- A badge for sold out goes before one for low stock.
  abbrev pub availability_of : Selectors → Availability
  availability_of s =
      on_first
        (on_first Availability.available (λ el. Availability.low_stock)
          (elements s.low_stock_badge))
        (λ el. Availability.out_of_stock) (elements s.out_of_stock_badge)

  abbrev pub product_of : Shop → String → Datetime → ProviderProductResult
  product_of shop url now =
      let s = shop.selectors in
      let name = name_or_empty (text_of s.product_name) in
      let price = number_of s.price in
      let mrp = number_of s.mrp in
      record {
        retailer_slug = shop.slug;
        keyword = name;
        product_name = name;
        availability = availability_of s;
        price = price;
        mrp = mrp;
        discount_pct = discount_of tools price mrp;
        eta_minutes = int_of s.eta;
        store_name = text_of s.store;
        image_url = image_of s.image;
        quantity_label = text_of s.quantity;
        variants = map (λ el. strip is_space (text el)) (elements s.variants);
        product_url = some url;
        scraped_at = now;
      }
