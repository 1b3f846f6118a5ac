-- ===== src/Api/Isolation/Lookup.antt =====
-- The settings of a user as a map from keys to values: backend/app/api/routers/settings.py on the
-- rows of `SqlAlchemySettingsRepository`.
use stock_monitoring.Common.{
  filter-holds, All, if◌then◌else◌, ℕ, String, ==_refl, str_eq, str_eq_iff, str_eq_refl, Bool, true,
  false, ◌&&◌, ◌≤◌, length, filter, filter-append, filter-update_if, update_if, Bool-cases,
  List-cases, inl, inr, some, List, [], ◌∷◌, ◌++◌, ◌≡◌, refl, sym, subst, arith,
}
use stock_monitoring.Common.Json.{Dict, Json, lookup, insert}
use stock_monitoring.Api.Isolation.Settings.{
  HasKeys, has_id, new_setting, changed, after_set-new, after_set-found, others-new, others-found,
}
use stock_monitoring.Api.Settings.{update_setting}
use stock_monitoring.Domain.Errors.{ok}
use stock_monitoring.Storage.Engine.{Engine}
use stock_monitoring.Storage.Rows.{SettingsModel}
use stock_monitoring.Storage.UserSettings.{collect, is_of, settings_repository}
use stock_monitoring.Storage.UserSettings
use stock_monitoring.Storage.World.{World}

-- What is found after an entry is set.
lookup-insert :
    (k j : String) (v : Json) (d : Dict Json)
    → lookup k (insert j v d) ≡ (if str_eq j k then some v else lookup k d)
lookup-insert k j v [] = refl
lookup-insert k j v ((i, u) ∷ d) = elim (Bool-cases (str_eq i j)) [
  | inl e ↦ let same : i ≡ j = (str_eq_iff i j).0 e in rw (e, same) (ground arith)
  | inr e ↦ elim (Bool-cases (str_eq j k)) [
    | inl h ↦
        let apart : str_eq i k ≡ false = subst (λ s. str_eq i s ≡ false) ((str_eq_iff j k).0 h) e in
        rw (e, lookup-insert k j v d, h, apart) refl
    | inr h ↦ rw (e, lookup-insert k j v d, h) refl
  ]
]

-- Only the rows of a key decide what is found under it.
lookup-collect :
    (k : String) (rows : List SettingsModel) (d d' : Dict Json)
    → lookup k d ≡ lookup k d'
    → lookup k (collect rows d) ≡ lookup k (collect (filter (λ x. str_eq x.key k) rows) d')
lookup-collect k [] d d' same = same
lookup-collect k (x ∷ rows) d d' same = elim (Bool-cases (str_eq x.key k)) [
  | inl e ↦ rw e (
      lookup-collect k rows (insert x.key x.value_json d) (insert x.key x.value_json d')
        (rw (lookup-insert k x.key x.value_json d, lookup-insert k x.key x.value_json d', e) refl))
  | inr e ↦ rw e (
      lookup-collect k rows (insert x.key x.value_json d) d'
        (rw (lookup-insert k x.key x.value_json d, e) same))
]

filter-filter_and :
    (p q : SettingsModel → Bool) (rows : List SettingsModel)
    → filter p (filter q rows) ≡ filter (λ x. q x && p x) rows
filter-filter_and p q [] = refl
filter-filter_and p q (x ∷ rows) = elim (Bool-cases (q x)) [
  | inl e ↦ elim (Bool-cases (p x)) [
    | inl h ↦ rw (e, h, filter-filter_and p q rows) refl
    | inr h ↦ rw (e, h, filter-filter_and p q rows) refl
  ]
  | inr e ↦ rw (e, filter-filter_and p q rows) refl
]

-- The first row that is found passes the test.
filter-first :
    (p : SettingsModel → Bool) (rows : List SettingsModel) {m : SettingsModel}
    {ms : List SettingsModel}
    → filter p rows ≡ m ∷ ms
    → p m ≡ true
filter-first p rows found = (subst (All (λ x. p x ≡ true)) found (filter-holds p rows)).0

abbrev of_key : ℕ → String → SettingsModel → Bool
of_key user k m = is_of user m && str_eq m.key k

abbrev pub settings_of : ℕ → List SettingsModel → Dict Json
settings_of user rows = collect (filter (is_of user) rows) []

lookup-of_key :
    (user : ℕ) (k : String) (rows : List SettingsModel)
    → lookup k (settings_of user rows) ≡ lookup k (collect (filter (of_key user k) rows) [])
lookup-of_key user k rows =
    rw (sym (filter-filter_and (λ x. str_eq x.key k) (is_of user) rows))
      (lookup-collect k (filter (is_of user) rows) [] [] refl)

-- One row of the key with the value, and the rows of other keys as they were.
lookup-settings_of :
    (user : ℕ) (key : String) (value : Json) (rows rows' : List SettingsModel) {m : SettingsModel}
    → filter (of_key user key) rows' ≡ m ∷ []
    → m.value_json ≡ value
    → ((k : String)
        → str_eq key k ≡ false
        → filter (of_key user k) rows' ≡ filter (of_key user k) rows)
    → (k : String)
    → lookup k (settings_of user rows')
      ≡ (if str_eq key k then some value else lookup k (settings_of user rows))
lookup-settings_of user key value rows rows' {m} one new rest k = elim (Bool-cases (str_eq key k)) [
  | inl e ↦
      let same : key ≡ k = (str_eq_iff key k).0 e in
      let own : str_eq m.key k ≡ true =
        subst (λ j. str_eq m.key j ≡ true) same
          (ground (arith, filter-first (of_key user key) rows' one)) in
      rw
        (
          e,
          lookup-of_key user k rows',
          subst (λ j. filter (of_key user j) rows' ≡ m ∷ []) same one,
          own,
          new,
        )
        refl
  | inr e ↦ rw (e, lookup-of_key user k rows', rest k e, lookup-of_key user k rows) refl
]

-- Another key's test, on a row of the key.
of_key-apart :
    (user : ℕ) (key k : String) (x : SettingsModel)
    → str_eq key k ≡ false
    → of_key user key x ≡ true
    → of_key user k x ≡ false
of_key-apart user key k x apart h =
    let own : x.key ≡ key = (str_eq_iff x.key key).0 (ground (arith, h)) in
    rw (subst (λ j. str_eq j k ≡ false) (sym own) apart) (ground arith)

module _ (E : Engine) (user : ℕ) (key : String) (value : Json) (w : World) where
  abbrev after : World
  after = (update_setting (settings_repository E) key value user w).1

  -- The answer is read back from the table.
  update_setting-read :
      (w' : World)
      → UserSettings.set_for_user E user key value w ≡ (ok tt, w')
      → ((k : String)
          → lookup k (settings_of user w'.settings)
            ≡ (if str_eq key k then some value else lookup k (settings_of user w.settings)))
      → ((update_setting (settings_repository E) key value user w).0
          ≡ ok (settings_of user after.settings))
        × ((k : String)
            → lookup k (settings_of user after.settings)
              ≡ (if str_eq key k then some value else lookup k (settings_of user w.settings)))
  unfolding update_setting UserSettings.get_for_user
  update_setting-read w' e h = rw (e, after) (refl, h)

  one-new :
      filter (of_key user key) w.settings ≡ []
      → filter (of_key user key) (w.settings ++ new_setting E user key value w ∷ [])
        ≡ new_setting E user key value w ∷ []
  one-new nobody =
      rw
        (
          filter-append (of_key user key) w.settings (new_setting E user key value w ∷ []),
          nobody,
          ==_refl user,
          str_eq_refl key,
        )
        refl

  new-apart :
      (k : String) → str_eq key k ≡ false → of_key user k (new_setting E user key value w) ≡ false
  new-apart k apart = rw (apart, ==_refl user) refl

  one-found :
      {m : SettingsModel}
      → filter (of_key user key) w.settings ≡ m ∷ []
      → filter (of_key user key) (update_if (has_id m.id) (changed E user key value w) w.settings)
        ≡ changed E user key value w m ∷ []
  one-found {m} found =
      rw
        (
          filter-update_if (of_key user key) (has_id m.id) (changed E user key value w) w.settings
              (λ x. refl),
          found,
          ==_refl m.id,
        )
        refl

-- Where no two rows of the settings table have one key, and the user has at most one row of the
-- key, update_setting answers with a dict in which the key has the new value and every other key
-- what it had before, or nothing, and the dict is what the table then holds for the user.
pub update_setting-lookup :
    (E : Engine) (user : ℕ) (key : String) (value : Json) (w : World)
    → HasKeys w.settings
    → length (filter (λ (m : SettingsModel). is_of user m && str_eq m.key key) w.settings) ≤ 1
    → ((update_setting (settings_repository E) key value user w).0
        ≡ ok
            (settings_of user (update_setting (settings_repository E) key value user w).1.settings))
      × ((k : String)
          → lookup k (
              settings_of user (update_setting (settings_repository E) key value user w).1.settings)
            ≡ (if str_eq key k then some value else lookup k (settings_of user w.settings)))
update_setting-lookup E user key value w keys single =
    elim (List-cases (filter (of_key user key) w.settings)) [
      | inl nobody ↦
          let rows' : List SettingsModel = w.settings ++ new_setting E user key value w ∷ [] in
          update_setting-read E user key value w
            (record w { db = record w.db { settings = rows' } })
            (after_set-new E user key value w nobody)
            (lookup-settings_of user key value w.settings rows' (one-new E user key value w nobody)
              refl
              (λ k apart.
                others-new E user key value w (of_key user k)
                  (new-apart E user key value w k apart)))
      | inr (inl (m, found)) ↦
          let rows' : List SettingsModel =
            update_if (has_id m.id) (changed E user key value w) w.settings in
          update_setting-read E user key value w
            (record w { db = record w.db { settings = rows' } })
            (after_set-found E user key value w found)
            (lookup-settings_of user key value w.settings rows' (one-found E user key value w found)
              refl
              (λ k apart.
                others-found E user key value w (of_key user k) keys (λ x. refl)
                  (λ x h. of_key-apart user key k x apart h) found))
      | inr (inr (m, m', ms, found)) ↦
          absurd (omega (arith, subst (λ xs. length xs ≤ 1) found single))
    ]
