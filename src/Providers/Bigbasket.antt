-- ===== src/Providers/Bigbasket.antt =====
-- backend/app/infrastructure/providers/bigbasket: the provider for BigBasket.
use stock_monitoring.Domain.Ports.{BaseRetailProvider}
use stock_monitoring.Providers.Browser.{Tools, Own}
use stock_monitoring.Providers.Navigation.{provider}
use stock_monitoring.Providers.Pages.{Selectors, Shop}

abbrev pub bigbasket_selectors : Selectors
bigbasket_selectors = record {
  location_trigger = "[data-qa='select-location']";
  location_input = "[data-qa='location-search-input']";
  location_confirm = "[data-qa='location-confirm']";
  search_result_card = "[data-qa='product-card'] a";
  product_name = "[data-qa='product-name']";
  price = "[data-qa='product-price']";
  mrp = "[data-qa='product-mrp']";
  eta = "[data-qa='product-eta']";
  store = "[data-qa='product-store']";
  image = "[data-qa='product-image'] img";
  quantity = "[data-qa='product-quantity']";
  variants = "[data-qa='product-variant']";
  out_of_stock_badge = "[data-qa='product-out-of-stock']";
  low_stock_badge = "[data-qa='product-low-stock']";
}

abbrev pub bigbasket_shop : Shop
bigbasket_shop = record {
  slug = "bigbasket";
  base_url = "https://www.bigbasket.com";
  search_url = "https://www.bigbasket.com/ps/?q=";
  selectors = bigbasket_selectors;
}

abbrev pub bigbasket_provider : {V : Type 0} → Tools V → BaseRetailProvider (Own V)
bigbasket_provider tools = provider tools bigbasket_shop
