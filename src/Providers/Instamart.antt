-- ===== src/Providers/Instamart.antt =====
-- backend/app/infrastructure/providers/instamart: the provider for Swiggy Instamart.
use stock_monitoring.Domain.Ports.{BaseRetailProvider}
use stock_monitoring.Providers.Browser.{Tools, Own}
use stock_monitoring.Providers.Navigation.{provider}
use stock_monitoring.Providers.Pages.{Selectors, Shop}

abbrev pub instamart_selectors : Selectors
instamart_selectors = record {
  location_trigger = "[data-testid='select-location']";
  location_input = "[data-testid='location-search-input']";
  location_confirm = "[data-testid='location-confirm']";
  search_result_card = "[data-testid='item-card'] a";
  product_name = "[data-testid='item-name']";
  price = "[data-testid='item-price']";
  mrp = "[data-testid='item-mrp']";
  eta = "[data-testid='item-eta']";
  store = "[data-testid='item-store']";
  image = "[data-testid='item-image'] img";
  quantity = "[data-testid='item-quantity']";
  variants = "[data-testid='item-variant']";
  out_of_stock_badge = "[data-testid='item-out-of-stock']";
  low_stock_badge = "[data-testid='item-low-stock']";
}

abbrev pub instamart_shop : Shop
instamart_shop = record {
  slug = "instamart";
  base_url = "https://www.swiggy.com/instamart";
  search_url = "https://www.swiggy.com/instamart/search?query=";
  selectors = instamart_selectors;
}

abbrev pub instamart_provider : {V : Type 0} → Tools V → BaseRetailProvider (Own V)
instamart_provider tools = provider tools instamart_shop
