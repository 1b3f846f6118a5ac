-- ===== src/Providers/Steps.antt =====
-- The steps of the methods that neither open nor close a page.
use stock_monitoring.Common.{ℕ, String, Option, none, some, List, [], ◌∷◌, refl}
use stock_monitoring.Domain.Action.{Action}
use stock_monitoring.Domain.Entities.{LocationContext}
use stock_monitoring.Providers.Browser.{Tools, Handles, Own, on_page, get_handles, set_handles}
use stock_monitoring.Domain.Keeps.{Keeps, Keeps-pure, Keeps-require, Keeps-bind}
use stock_monitoring.Providers.Closing.{ReadLaws}
use stock_monitoring.Providers.Navigation.{ensure_browser, set_location, require_browser, card_urls}
use stock_monitoring.Providers.Pages.{Shop}

module _ {V X : Type 0} (tools : Tools V) (view : V → X) (laws : ReadLaws tools view) where
  open tools use {playwright}

  abbrev pub seen : Own V → X
  seen w = view w.1

  pub on_page-Keeps : {A : Type 0} (m : Action V A) → Keeps view m → Keeps seen (on_page m)
  on_page-Keeps m km = record { at = λ w. km.at w.1 }

  pub get_handles-Keeps : Keeps seen get_handles
  get_handles-Keeps = record { at = λ w. refl }

  pub set_handles-Keeps : (h : Handles) → Keeps seen (set_handles h)
  set_handles-Keeps h = record { at = λ w. refl }

  module _ (shop : Shop) where
    pub set_location-Keeps :
        (location : LocationContext) (page : ℕ) → Keeps view (set_location tools shop location page)
    unfolding set_location
    set_location-Keeps location page =
        let s = shop.selectors in
        Keeps-bind (playwright.click page s.location_trigger 5000) _
          (record { at = laws.click-view page s.location_trigger 5000 })
          (λ _.
            Keeps-bind (playwright.fill page s.location_input location.pincode) _
              (record { at = laws.fill-view page s.location_input location.pincode })
              (λ _. record { at = laws.click-view page s.location_confirm 5000 }))

    pub ensure_browser-Keeps : (browser : Option ℕ) → Keeps seen (ensure_browser tools shop browser)
    unfolding ensure_browser
    ensure_browser-Keeps (some browser) = Keeps-pure browser
    ensure_browser-Keeps none =
        Keeps-bind (on_page playwright.start) _
          (on_page-Keeps playwright.start (record { at = laws.start-view }))
          (λ driver.
            Keeps-bind (set_handles (record { playwright = some driver; browser = none })) _
              (set_handles-Keeps _)
              (λ _.
                Keeps-bind (on_page (playwright.launch driver)) _
                  (on_page-Keeps (playwright.launch driver)
                    (record { at = laws.launch-view driver }))
                  (λ browser.
                    Keeps-bind
                      (set_handles (record { playwright = some driver; browser = some browser })) _
                      (set_handles-Keeps _) (λ _. Keeps-pure browser))))

    pub goto-Keeps :
        (page : ℕ) (url : String) (timeout : ℕ)
        → Keeps seen (on_page (playwright.goto page url timeout))
    goto-Keeps page url timeout =
        on_page-Keeps (playwright.goto page url timeout)
          (record { at = laws.goto-view page url timeout })

    pub require_browser-Keeps : Keeps seen (require_browser tools shop)
    unfolding require_browser
    require_browser-Keeps =
        Keeps-bind get_handles _ get_handles-Keeps (λ handles. Keeps-require _ handles.browser)

    pub card_urls-Keeps : (cards : List ℕ) → Keeps view (card_urls tools shop cards)
    unfolding card_urls
    card_urls-Keeps [] = Keeps-pure []
    card_urls-Keeps (card ∷ cards) =
        Keeps-bind (playwright.get_attribute card "href") _
          (record { at = laws.get_attribute-view card "href" })
          (λ url.
            Keeps-bind (card_urls tools shop cards) _ (card_urls-Keeps cards)
              (λ urls. Keeps-pure _))
