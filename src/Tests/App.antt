-- ===== src/Tests/App.antt =====
-- The theorems on the whole application, on concrete requests.
use stock_monitoring.Common.{
  map, filter, All, List, leb, ◌*◌, ◌+◌, ◌-◌, ℕ, none, some, [], ◌∷◌, String, ◌≡◌, refl, inl,
  Option, false, ◌==◌, subst, arith, str_eq, if◌then◌else◌,
}
use stock_monitoring.Analytics.Summary.{Floats}
use stock_monitoring.Api.App.{Request, UserRoute, PublicRoute, Route, arrive, respond, respond_all}
use stock_monitoring.Api.Isolation.Requests.{IsOfOthers, respond-IsRefused, respond_all-private}
use stock_monitoring.Api.Isolation.Settings.{HasKeys}
use stock_monitoring.Api.Isolation.Lookup.{settings_of, update_setting-lookup}
use stock_monitoring.Api.Settings.{update_setting}
use stock_monitoring.Storage.UserSettings.{settings_repository}
use stock_monitoring.Api.Isolation.Startup.{IsOffered, list_retailers-IsOffered}
use stock_monitoring.Api.Isolation.Readable.{list_channels-respond_all}
use stock_monitoring.Api.Schemas.{ChannelSchema}
use stock_monitoring.Domain.Enums.{parse_channel_type}
use stock_monitoring.Api.Lifespan.{start_up}
use stock_monitoring.Api.Main.{failure, success}
use stock_monitoring.Api.Reference.{RetailerSchema}
use stock_monitoring.Storage.Retailers.{supported_retailers}
use stock_monitoring.Api.Routers.{NotificationsRoute, ReadRoute, WatchesRoute, SettingsRoute}
use stock_monitoring.Common.Decimal.{parse_int}
use stock_monitoring.Api.Deps.{remove_prefix}
use stock_monitoring.Auth.Service.{AuthService}
use stock_monitoring.Auth.Wiring.{auth_service}
use stock_monitoring.Common.Json.{Json, lookup}
use stock_monitoring.Domain.Action.{pure}
use stock_monitoring.Domain.Errors.{Error, Result, ok, err}
use stock_monitoring.Storage.Private.{private, unreadable}
use stock_monitoring.Storage.Rows.{NotificationChannelModel}
use stock_monitoring.Storage.World.{World}
use stock_monitoring.Tests.Api.{shop}
use stock_monitoring.Tests.Samples.{hash, token_jwt}
use stock_monitoring.Tests.Sqlite.{sqlite}

abbrev failed : Error → String
failed e = "failed"

abbrev here : AuthService World
here = auth_service sqlite token_jwt hash (pure 5) 15 30

-- User 8 has a setting, and so has user 7.
abbrev settled : World
settled = record shop {
  db = record shop.db {
    settings =
        record { id = 1; user_id = some 8; key = "theme"; value_json = Json.str "dark" }
        ∷ record { id = 2; user_id = some 7; key = "theme"; value_json = Json.str "dark" }
        ∷ [];
  };
}

keyed : HasKeys settled.settings
keyed id = ground arith

readable : unreadable settled ≡ []
unfolding parse_channel_type
readable = refl

abbrev theft : Request
theft = record {
  at = 2_000_000;
  path = "/api/v1/watches/2";
  authorization = some "Bearer access7";
  route = Route.for_user (UserRoute.watches (WatchesRoute.delete_watch_route 2));
}

abbrev change_theme : Request
change_theme = record theft {
  route =
      Route.for_user
        (UserRoute.settings (SettingsRoute.update_setting_route "theme" (Json.str "light")));
}

abbrev sign_in : Request
sign_in = record {
  at = 3_000_000;
  path = "/api/v1/auth/request-otp";
  authorization = none;
  route = Route.for_anybody (PublicRoute.request_otp_route (record { phone_number = "+911" }));
}

-- Numbers in place of floats.
abbrev whole : Floats
whole = record {
  of_int = λ n. n;
  total_seconds = λ later earlier. later - earlier;
  add = λ a b. a + b;
  sub = λ a b. a - b;
  mul = λ a b. a * b;
  div = λ a b. 0;
  max = λ a b. a;
  le = λ a b. leb a b;
  round = λ a. a;
}

abbrev stranger : Request
stranger = record theft { authorization = some "Bearer forged" }

abbrev IsUndecoded : Option String → Type 0
IsUndecoded none = Unit
IsUndecoded (some token) = token_jwt.decode 2_000_000 token ≡ none

abbrev IsNotEight : Result ℕ → Type 0
IsNotEight (ok user) = (user == 8) ≡ false
IsNotEight (err e) = Unit

by_seven : IsOfOthers token_jwt 8 theft
unfolding remove_prefix parse_int
by_seven user by = subst IsNotEight by refl

by_nobody : IsOfOthers token_jwt 8 sign_in
by_nobody user by = subst IsNotEight by tt

respond-IsRefused_example :
    respond sqlite whole failed here stranger settled ≡ (ok (failure 401), arrive 2_000_000 settled)
unfolding remove_prefix
respond-IsRefused_example =
    respond-IsRefused sqlite whole failed token_jwt hash (pure 5) 15 30 2_000_000
      "/api/v1/watches/2" (some "Bearer forged")
      (UserRoute.watches (WatchesRoute.delete_watch_route 2)) settled
      (λ token held. inl (subst IsUndecoded held refl))

respond_all-private_example :
    private 8 (respond_all sqlite whole failed here (theft ∷ change_theme ∷ sign_in ∷ []) settled)
    ≡ private 8 settled
respond_all-private_example =
    respond_all-private sqlite whole failed token_jwt hash (pure 5) 15 30 (λ w. refl) 8
      (theft ∷ change_theme ∷ sign_in ∷ []) settled (by_seven, (by_seven, (by_nobody, tt))) keyed

abbrev visited : World
visited =
    respond_all sqlite whole failed here (theft ∷ change_theme ∷ sign_in ∷ [])
      (start_up sqlite settled).1

list_retailers-IsOffered_example :
    (retailers : List RetailerSchema) × ((respond sqlite whole failed here
        (record theft {
          at = 4_000_000;
          path = "/api/v1/retailers";
          route = Route.for_user (UserRoute.read ReadRoute.list_retailers_route);
        })
        visited).0
      ≡ ok (success retailers))
    × All (IsOffered retailers) supported_retailers
unfolding remove_prefix parse_int
list_retailers-IsOffered_example =
    list_retailers-IsOffered sqlite whole failed token_jwt hash (pure 5) 15 30 (λ w. refl) 4_000_000
      "/api/v1/retailers" (some "Bearer access7") {user = 7} (theft ∷ change_theme ∷ sign_in ∷ [])
      settled keyed refl

list_channels-respond_all_example :
    let now = respond_all sqlite whole failed here (theft ∷ change_theme ∷ sign_in ∷ []) settled in
    (unreadable now ≡ [])
    × (channels : List ChannelSchema) × ((respond sqlite whole failed here
          (record theft {
            at = 4_000_000;
            path = "/api/v1/notifications/channels";
            route = Route.for_user (UserRoute.notifications NotificationsRoute.list_channels_route);
          })
          now).0
        ≡ ok (success channels))
    × (map (λ (c : ChannelSchema). c.id) channels
        ≡ map
            (λ (m : NotificationChannelModel). m.id)
            (filter (λ (m : NotificationChannelModel). m.user_id == 7) now.notification_channels))
unfolding remove_prefix parse_int
list_channels-respond_all_example =
    list_channels-respond_all sqlite whole failed token_jwt hash (pure 5) 15 30 (λ w. refl)
      4_000_000 "/api/v1/notifications/channels" (some "Bearer access7") {user = 7}
      (theft ∷ change_theme ∷ sign_in ∷ []) settled keyed readable refl

update_setting-lookup_example :
    let changed =
      update_setting (settings_repository sqlite) "theme" (Json.str "light") 8 settled in
    (changed.0 ≡ ok (settings_of 8 changed.1.settings))
    × ((k : String)
        → lookup k (settings_of 8 changed.1.settings) ≡ (
            if str_eq "theme" k
            then some (Json.str "light")
            else lookup k (settings_of 8 settled.settings)))
update_setting-lookup_example =
    update_setting-lookup sqlite 8 "theme" (Json.str "light") settled keyed (ground arith)
