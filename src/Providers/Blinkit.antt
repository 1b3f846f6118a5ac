-- ===== src/Providers/Blinkit.antt =====
-- backend/app/infrastructure/providers/blinkit: the provider for Blinkit.
use stock_monitoring.Domain.Ports.{BaseRetailProvider}
use stock_monitoring.Providers.Browser.{Tools, Own}
use stock_monitoring.Providers.Navigation.{provider}
use stock_monitoring.Providers.Pages.{Selectors, Shop}

abbrev pub blinkit_selectors : Selectors
blinkit_selectors = record {
  location_trigger = "[data-test-id='select-location']";
  location_input = "[data-test-id='location-search-input']";
  location_confirm = "[data-test-id='location-confirm']";
  search_result_card = "[data-test-id='plp-product-card'] a";
  product_name = "[data-test-id='product-name']";
  price = "[data-test-id='product-price']";
  mrp = "[data-test-id='product-mrp']";
  eta = "[data-test-id='eta']";
  store = "[data-test-id='store-name']";
  image = "[data-test-id='product-image'] img";
  quantity = "[data-test-id='product-quantity']";
  variants = "[data-test-id='variant-option']";
  out_of_stock_badge = "[data-test-id='out-of-stock']";
  low_stock_badge = "[data-test-id='low-stock']";
}

abbrev pub blinkit_shop : Shop
blinkit_shop = record {
  slug = "blinkit";
  base_url = "https://blinkit.com";
  search_url = "https://blinkit.com/s/?q=";
  selectors = blinkit_selectors;
}

abbrev pub blinkit_provider : {V : Type 0} → Tools V → BaseRetailProvider (Own V)
blinkit_provider tools = provider tools blinkit_shop
