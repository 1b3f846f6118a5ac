-- ===== src/Providers/Wiring.antt =====
-- The providers that backend/app/monitor/main.py registers, each under its slug.
use stock_monitoring.Common.{[], ◌∷◌}
use stock_monitoring.Common.Json.{Dict}
use stock_monitoring.Domain.Ports.{BaseRetailProvider}
use stock_monitoring.Providers.Browser.{Tools, Own}
use stock_monitoring.Providers.Blinkit.{blinkit_provider}
use stock_monitoring.Providers.Zepto.{zepto_provider}
use stock_monitoring.Providers.Instamart.{instamart_provider}
use stock_monitoring.Providers.Bigbasket.{bigbasket_provider}

module _ {V : Type 0} (tools : Tools V) where
  abbrev pub provider_classes : Dict (BaseRetailProvider (Own V))
  provider_classes =
      ("blinkit", blinkit_provider tools)
      ∷ ("zepto", zepto_provider tools)
      ∷ ("instamart", instamart_provider tools)
      ∷ ("bigbasket", bigbasket_provider tools)
      ∷ []
