-- ===== src/Providers/Pages.antt =====
-- What a provider reads in a product page that is loaded. The four providers of
-- backend/app/infrastructure/providers run the same code on their own addresses and selectors.
use stock_monitoring.Common.{ℕ, String, ◌==◌, Option, none, some, List, [], ◌∷◌, if◌then◌else◌}
use stock_monitoring.Domain.Action.{Action, pure, ◌>>=◌}
use stock_monitoring.Domain.Entities.{Float, ProviderProductResult}
use stock_monitoring.Domain.Enums.{Availability}
use stock_monitoring.Providers.Browser.{Tools}
use stock_monitoring.Providers.Text.{strip, search_int, remove_commas, search_number}

-- The selectors of a provider's selectors.py.
pub record Selectors : Type 0 where
  pub location_trigger : String
  pub location_input : String
  pub location_confirm : String
  pub search_result_card : String
  pub product_name : String
  pub price : String
  pub mrp : String
  pub eta : String
  pub store : String
  pub image : String
  pub quantity : String
  pub variants : String
  pub out_of_stock_badge : String
  pub low_stock_badge : String

-- A provider's constants; a search for a keyword goes to `search_url ++ keyword`.
pub record Shop : Type 0 where
  pub slug : String
  pub base_url : String
  pub search_url : String
  pub selectors : Selectors

-- `price, mrp, discount_pct`
pub record Prices : Type 0 where
  pub price : Option Float
  pub mrp : Option Float
  pub discount_pct : Option Float

-- `float(match.group(0)) if match else None`
abbrev pub to_float : (String → Float) → Option String → Option Float
to_float float none = none
to_float float (some text) = some (float text)

-- The product's name, empty if the page shows none.
abbrev pub name_or_empty : Option String → String
name_or_empty none = ""
name_or_empty (some name) = name

module _ {V : Type 0} (tools : Tools V) where
  open tools use {playwright, utcnow, is_space, digit_value, float, discount}

  -- `(await el.inner_text()).strip() if el else None`
  unfoldable pub stripped_text : Option ℕ → Action V (Option String)
  stripped_text none = pure none
  stripped_text (some el) = do text ← playwright.inner_text el; pure (some (strip is_space text))

  -- The list comprehension of `extract_variants`.
  unfoldable pub stripped_texts : List ℕ → Action V (List String)
  stripped_texts [] = pure []
  stripped_texts (el ∷ els) = do
    text ← playwright.inner_text el
    texts ← stripped_texts els
    pure (strip is_space text ∷ texts)

  -- `_extract_number`
  unfoldable pub extract_number : ℕ → String → Action V (Option Float)
  extract_number page selector = do
    found ← playwright.query_selector page selector
    elim found [
      | none ↦ pure none
      | some el ↦ do
        text ← playwright.inner_text el
        pure (to_float float (search_number digit_value (remove_commas text)))
    ]

  -- `if price is not None and mrp`: a float is true unless it is zero, whose bit pattern is 0.
  abbrev pub discount_of : Option Float → Option Float → Option Float
  discount_of none mrp = none
  discount_of (some price) none = none
  discount_of (some price) (some mrp) = if mrp == 0 then none else some (discount price mrp)

  module _ (selectors : Selectors) where
    unfoldable pub check_availability_from_page : ℕ → Action V Availability
    check_availability_from_page page = do
      sold_out ← playwright.query_selector page selectors.out_of_stock_badge
      elim sold_out [
        | some _ ↦ pure Availability.out_of_stock
        | none ↦ do
          low ← playwright.query_selector page selectors.low_stock_badge
          elim low [ some _ ↦ pure Availability.low_stock | none ↦ pure Availability.available ]
      ]

    unfoldable pub extract_price : ℕ → Action V Prices
    unfolding extract_number
    extract_price page = do
      price ← extract_number page selectors.price
      mrp ← extract_number page selectors.mrp
      pure (record { price = price; mrp = mrp; discount_pct = discount_of price mrp })

    unfoldable pub extract_eta : ℕ → Action V (Option ℕ)
    extract_eta page = do
      found ← playwright.query_selector page selectors.eta
      elim found [
        | none ↦ pure none
        | some el ↦ do text ← playwright.inner_text el; pure (search_int digit_value text)
      ]

    unfoldable pub extract_store : ℕ → Action V (Option String)
    unfolding stripped_text
    extract_store page = do
      found ← playwright.query_selector page selectors.store
      stripped_text found

    unfoldable pub extract_image : ℕ → Action V (Option String)
    extract_image page = do
      found ← playwright.query_selector page selectors.image
      elim found [ none ↦ pure none | some el ↦ playwright.get_attribute el "src" ]

    unfoldable pub extract_quantity : ℕ → Action V (Option String)
    unfolding stripped_text
    extract_quantity page = do
      found ← playwright.query_selector page selectors.quantity
      stripped_text found

    unfoldable pub extract_variants : ℕ → Action V (List String)
    unfolding stripped_texts
    extract_variants page = do
      elements ← playwright.query_selector_all page selectors.variants
      stripped_texts elements

  -- `get_product` from the page that it has loaded.
  unfoldable pub read_product : Shop → String → ℕ → Action V ProviderProductResult
  unfolding check_availability_from_page extract_price extract_eta extract_store extract_image
      extract_quantity extract_variants
  read_product shop product_url page = do
    name_el ← playwright.query_selector page shop.selectors.product_name
    name ← stripped_text name_el
    let product_name = name_or_empty name
    availability ← check_availability_from_page shop.selectors page
    prices ← extract_price shop.selectors page
    eta_minutes ← extract_eta shop.selectors page
    store_name ← extract_store shop.selectors page
    image_url ← extract_image shop.selectors page
    quantity_label ← extract_quantity shop.selectors page
    variants ← extract_variants shop.selectors page
    now ← utcnow
    pure (record {
      retailer_slug = shop.slug;
      keyword = product_name;
      product_name = product_name;
      availability = availability;
      price = prices.price;
      mrp = prices.mrp;
      discount_pct = prices.discount_pct;
      eta_minutes = eta_minutes;
      store_name = store_name;
      image_url = image_url;
      quantity_label = quantity_label;
      variants = variants;
      product_url = some product_url;
      scraped_at = now;
    })
