-- ===== src/Storage/Retailers.antt =====
-- `SqlAlchemyRetailerRepository` of backend/app/infrastructure/db/repositories.py, and the seeding of backend/app/infrastructure/db/seed.py.
pub mod Seeding
use stock_monitoring.Common.{
  String, Bool, true, str_eq, some, List, [], ◌∷◌, ◌++◌, map, any, if◌then◌else◌,
}
use stock_monitoring.Domain.Action.{Action, gets, modify}
use stock_monitoring.Domain.Entities.{Retailer}
use stock_monitoring.Domain.Ports.{RetailerRepository}
use stock_monitoring.Storage.Rows.{RetailerModel}
use stock_monitoring.Storage.World.{World}
use stock_monitoring.Storage.Engine.{Engine}

abbrev pub to_retailer : RetailerModel → Retailer
to_retailer model = record {
  id = some model.id;
  slug = model.slug;
  name = model.name;
  is_active = model.is_active;
}

unfoldable pub list_all : Action World (List Retailer)
list_all w = gets (λ v. map to_retailer v.retailers) w

abbrev pub retailer_repository : RetailerRepository World
retailer_repository = record { list_all = list_all }

abbrev pub supported_retailers : List (String × String)
supported_retailers =
    ("blinkit", "Blinkit")
    ∷ ("zepto", "Zepto")
    ∷ ("instamart", "Swiggy Instamart")
    ∷ ("bigbasket", "BigBasket")
    ∷ []

-- `slug in existing_slugs`
abbrev pub knows : List String → String → Bool
knows slugs slug = any (str_eq slug) slugs

-- The loop over the supported retailers; `existing_slugs` is read once, before it.
unfoldable pub seed_missing :
    Engine → List String → List (String × String) → List RetailerModel → List RetailerModel
seed_missing E existing_slugs [] rows = rows
seed_missing E existing_slugs ((slug, name) ∷ rest) rows =
    let model : RetailerModel = record {
      id = E.fresh (map (λ (m : RetailerModel). m.id) rows);
      slug = slug;
      name = name;
      is_active = true;
    } in
    seed_missing E existing_slugs rest
      (if knows existing_slugs slug then rows else rows ++ model ∷ [])

unfoldable pub ensure_retailers_seeded : Engine → Action World (Unit {0})
unfolding seed_missing
ensure_retailers_seeded E = modify (λ w. record w {
  db = record w.db {
    retailers =
        seed_missing E (map (λ (m : RetailerModel). m.slug) w.retailers) supported_retailers
          w.retailers;
  };
})
