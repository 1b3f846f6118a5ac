-- ===== src/Providers/Zepto.antt =====
-- backend/app/infrastructure/providers/zepto: the provider for Zepto.
use stock_monitoring.Domain.Ports.{BaseRetailProvider}
use stock_monitoring.Providers.Browser.{Tools, Own}
use stock_monitoring.Providers.Navigation.{provider}
use stock_monitoring.Providers.Pages.{Selectors, Shop}

abbrev pub zepto_selectors : Selectors
zepto_selectors = record {
  location_trigger = "[data-test-id='select-location']";
  location_input = "[data-test-id='location-search-input']";
  location_confirm = "[data-test-id='location-confirm']";
  search_result_card = "[data-test-id='plp-product-card'] a";
  product_name = "[data-test-id='pdp-product-name']";
  price = "[data-test-id='pdp-product-price']";
  mrp = "[data-test-id='pdp-product-mrp']";
  eta = "[data-test-id='pdp-eta']";
  store = "[data-test-id='pdp-store-name']";
  image = "[data-test-id='pdp-product-image'] img";
  quantity = "[data-test-id='pdp-product-quantity']";
  variants = "[data-test-id='pdp-variant']";
  out_of_stock_badge = "[data-test-id='pdp-sold-out']";
  low_stock_badge = "[data-test-id='pdp-low-stock']";
}

abbrev pub zepto_shop : Shop
zepto_shop = record {
  slug = "zepto";
  base_url = "https://www.zeptonow.com";
  search_url = "https://www.zeptonow.com/search?q=";
  selectors = zepto_selectors;
}

abbrev pub zepto_provider : {V : Type 0} → Tools V → BaseRetailProvider (Own V)
zepto_provider tools = provider tools zepto_shop
