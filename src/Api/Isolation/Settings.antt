-- ===== src/Api/Isolation/Settings.antt =====
-- Changing a setting: where no two rows of the table have one key, no other user's settings change,
-- and still no two rows have one key.
use stock_monitoring.Domain.Errors.{ok}
use stock_monitoring.Common.{
  ℕ, String, ◌==◌, ==_iff, ==_refl, str_eq, Bool, true, false, ◌&&◌, ◌≤◌, length, length-update_if,
  filter-filter_comm, filter-eq-nil, Option-cases, Bool-cases, inl, inr, some, List, [], ◌∷◌, ◌++◌,
  map, any-map, filter, filter-append, append-nil, filter-update_if, update_if, update_if-none,
  List-cases, ◌≡◌, refl, sym, subst, arith,
}
use stock_monitoring.Common.Json.{Json}
use stock_monitoring.Storage.Engine.{Engine}
use stock_monitoring.Storage.Private.{private, unreadable}
use stock_monitoring.Storage.Rows.{SettingsModel}
use stock_monitoring.Storage.UserSettings
use stock_monitoring.Storage.UserSettings.{is_of}
use stock_monitoring.Storage.World.{World}

abbrev pub has_id : ℕ → SettingsModel → Bool
has_id id m = m.id == id

-- The primary key of the table: at most one row of each.
abbrev pub HasKeys : List SettingsModel → Type 0
HasKeys rows = (id : ℕ) → length (filter (has_id id) rows) ≤ 1

HasKeys-update_if :
    (q : SettingsModel → Bool) (value : Json) (rows : List SettingsModel)
    → HasKeys rows
    → HasKeys (update_if q (λ m. record m { value_json = value }) rows)
HasKeys-update_if q value rows keys id =
    rw
      (
        filter-update_if (has_id id) q (λ m. record m { value_json = value }) rows (λ x. refl),
        length-update_if q (λ (m : SettingsModel). record m { value_json = value }),
      )
      (keys id)

-- A row with a new key.
HasKeys-append :
    (rows : List SettingsModel) (m : SettingsModel)
    → filter (has_id m.id) rows ≡ []
    → HasKeys rows
    → HasKeys (rows ++ m ∷ [])
HasKeys-append rows m new keys id = elim (Bool-cases (m.id == id)) [
  | inl e ↦
      let gone : filter (has_id id) rows ≡ [] =
        subst (λ i. filter (has_id i) rows ≡ []) ((==_iff m.id id).0 e) new in
      rw (filter-append (has_id id) rows (m ∷ []), gone, e) (omega arith)
  | inr e ↦
      rw (filter-append (has_id id) rows (m ∷ []), e, append-nil (filter (has_id id) rows))
        (keys id)
]

-- A row is of one user.
is_of-apart :
    (user other : ℕ) (m : SettingsModel)
    → (user == other) ≡ false
    → is_of user m ≡ true
    → is_of other m ≡ false
is_of-apart user other m apart e = elim (Option-cases m.user_id) [
  | inl nobody ↦ rw nobody refl
  | inr (owner, own) ↦ ground (arith, own)
]

-- Of at most one row, if it passes one of two tests that exclude each other, none passes the other.
none_of_other :
    (p q : SettingsModel → Bool) (rows : List SettingsModel) {m : SettingsModel}
    → length rows ≤ 1
    → ((x : SettingsModel) → p x ≡ true → q x ≡ false)
    → filter p rows ≡ m ∷ []
    → filter q rows ≡ []
none_of_other p q [] short apart found = refl
none_of_other p q (x ∷ []) short apart found = elim (Bool-cases (p x)) [
  | inl e ↦ rw (apart x e) refl
  | inr e ↦ ground (arith, found, e)
]
none_of_other p q (x ∷ y ∷ rows) short apart found = absurd (omega (arith, short))

-- The row that is found by a test shares its key with no row that passes the other.
filter-keyed :
    (p q : SettingsModel → Bool) (rows : List SettingsModel) {m : SettingsModel}
    → HasKeys rows
    → ((x : SettingsModel) → p x ≡ true → q x ≡ false)
    → filter p rows ≡ m ∷ []
    → filter (has_id m.id) (filter q rows) ≡ []
filter-keyed p q rows {m} keys apart found =
    let here : filter p (filter (has_id m.id) rows) ≡ m ∷ [] =
      rw (filter-filter_comm p (has_id m.id) rows, found, ==_refl m.id) refl in
    rw (filter-filter_comm (has_id m.id) q rows)
      (none_of_other p q (filter (has_id m.id) rows) (keys m.id) apart here)

module _ (E : Engine) (user : ℕ) (key : String) (value : Json) (w : World) where
  abbrev pub is_setting : SettingsModel → Bool
  is_setting m = is_of user m && str_eq m.key key

  abbrev id : ℕ
  id = E.fresh (map (λ (m : SettingsModel). m.id) w.settings)

  -- A new setting has a new key.
  fresh : filter (has_id id) w.settings ≡ []
  fresh = filter-eq-nil (has_id id) w.settings (
      rw (sym (any-map (λ (i : ℕ). i == id) (λ (m : SettingsModel). m.id) w.settings))
        (E.fresh-new (map (λ (m : SettingsModel). m.id) w.settings)))

  abbrev pub new_setting : SettingsModel
  new_setting = record { id = id; user_id = some user; key = key; value_json = value }

  abbrev with_settings : List SettingsModel → World
  with_settings rows = record w { db = record w.db { settings = rows } }

  -- The row with the new value.
  abbrev pub changed : SettingsModel → SettingsModel
  changed m = record m { value_json = value }

  abbrev pub after_set : World
  after_set = (UserSettings.set_for_user E user key value w).1

  pub after_set-new :
      filter is_setting w.settings ≡ []
      → UserSettings.set_for_user E user key value w
        ≡ (ok tt, with_settings (w.settings ++ new_setting ∷ []))
  unfolding UserSettings.set_for_user
  after_set-new nobody = rw (nobody, E.scalar_one_or_none-eq SettingsModel) refl

  pub after_set-found :
      {m : SettingsModel}
      → filter is_setting w.settings ≡ m ∷ []
      → UserSettings.set_for_user E user key value w
        ≡ (ok tt, with_settings (update_if (has_id m.id) changed w.settings))
  unfolding UserSettings.set_for_user
  after_set-found found = rw (found, E.scalar_one_or_none-eq SettingsModel) refl

  after_set-many :
      {m m' : SettingsModel} {ms : List SettingsModel}
      → filter is_setting w.settings ≡ m ∷ m' ∷ ms
      → after_set ≡ w
  unfolding UserSettings.set_for_user
  after_set-many found = rw (found, E.scalar_one_or_none-eq SettingsModel) refl

  -- The rows that pass a test that the changed row does not.
  module _ (q : SettingsModel → Bool) where
    pub others-new :
        q new_setting ≡ false → filter q (w.settings ++ new_setting ∷ []) ≡ filter q w.settings
    others-new apart =
        rw (filter-append q w.settings (new_setting ∷ []), apart) (append-nil (filter q w.settings))

    pub others-found :
        {m : SettingsModel}
        → HasKeys w.settings
        → ((x : SettingsModel) → q (changed x) ≡ q x)
        → ((x : SettingsModel) → is_setting x ≡ true → q x ≡ false)
        → filter is_setting w.settings ≡ m ∷ []
        → filter q (update_if (has_id m.id) changed w.settings) ≡ filter q w.settings
    others-found {m} keys blind apart found =
        rw (filter-update_if q (has_id m.id) changed w.settings blind) (
          update_if-none (has_id m.id) changed (filter q w.settings)
            (filter-keyed is_setting q w.settings keys apart found))

  -- Another user's rows stay, the primary key stays one, and so do the retailers and the
  -- unreadable channels.
  pub set_for_user-private :
      (other : ℕ)
      → (user == other) ≡ false
      → HasKeys w.settings
      → (private other after_set ≡ private other w)
        × HasKeys after_set.settings
        × (after_set.retailers ≡ w.retailers)
        × (unreadable after_set ≡ unreadable w)
  set_for_user-private other apart keys = elim (List-cases (filter is_setting w.settings)) [
    | inl nobody ↦
        rw (after_set-new nobody, after_set)
          (
            rw (others-new (is_of other) apart) refl,
            HasKeys-append w.settings new_setting fresh keys,
            refl,
            refl,
          )
    | inr (inl (m, found)) ↦
        rw (after_set-found found, after_set)
          (
            rw
                (others-found (is_of other) keys (λ x. refl)
                  (λ x h. is_of-apart user other x apart (ground (arith, h))) found)
                refl,
            HasKeys-update_if (has_id m.id) value w.settings keys,
            refl,
            refl,
          )
    | inr (inr (m, m', ms, found)) ↦ rw (after_set-many found) (refl, keys, refl, refl)
  ]
