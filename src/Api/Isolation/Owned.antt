-- ===== src/Api/Isolation/Owned.antt =====
-- The routes that change one of the user's own rows: no other user's rows change.
use stock_monitoring.Common.{
  ℕ, ◌==◌, false, Bool-cases, inl, inr, filter, List-cases, ◌≡◌, refl, arith,
}
use stock_monitoring.Api.Channels.{verify_channel, delete_channel}
use stock_monitoring.Api.Ownership.Channels as Owned_Channels
use stock_monitoring.Api.Ownership.Products as Owned_Products
use stock_monitoring.Api.Ownership.Watches as Owned_Watches
use stock_monitoring.Api.Products.{delete_product}
use stock_monitoring.Api.Watches.{delete_watch}
use stock_monitoring.Domain.Keeps.{Keeps}
use stock_monitoring.Storage.Channels.{notification_channel_repository}
use stock_monitoring.Storage.Engine.{Engine}
use stock_monitoring.Storage.Private.{seen, is_unreadable}
use stock_monitoring.Storage.Products.{product_repository}
use stock_monitoring.Storage.Watches.{watch_repository}
use stock_monitoring.Storage.World.{World}

module _ (E : Engine) (id user other : ℕ) (apart : (user == other) ≡ false) where
  pub delete_watch-Keeps : Keeps (seen other) (delete_watch (watch_repository E) id user)
  delete_watch-Keeps = record { at = at }
    where
      at : (w : World) → seen other (delete_watch (watch_repository E) id user w).1 ≡ seen other w
      at w = elim (List-cases (filter (Owned_Watches.has_id id) w.watches)) [
        | inl nobody ↦ rw (Owned_Watches.delete_watch-absent E id user w nobody) refl
        | inr (inl (m, found)) ↦
            rw (Owned_Watches.delete_watch-found E id user w m found)
              (elim (Bool-cases (m.user_id == user)) [
                | inl e ↦
                    rw (e, Owned_Watches.others-deactivated id other w found (ground arith)) refl
                | inr e ↦ rw e refl
              ])
        | inr (inr (m, m', ms, found)) ↦
            rw (Owned_Watches.delete_watch-many E id user w m m' ms found) refl
      ]

  pub delete_product-Keeps :
      Keeps (seen other) (delete_product (product_repository E) (watch_repository E) id user)
  delete_product-Keeps = record { at = at }
    where
      at :
          (w : World)
          → seen other (delete_product (product_repository E) (watch_repository E) id user w).1
            ≡ seen other w
      at w = elim (List-cases (filter (Owned_Products.has_id id) w.products)) [
        | inl nobody ↦ rw (Owned_Products.delete_product-absent E id user w nobody) refl
        | inr (inl (m, found)) ↦
            rw (Owned_Products.delete_product-found E id user w m found)
              (elim (Bool-cases (m.user_id == user)) [
                | inl e ↦ elim (Bool-cases (Owned_Products.is_watched id w)) [
                  | inl b ↦ rw (e, b) refl
                  | inr b ↦ elim (Bool-cases (Owned_Products.is_referenced id w)) [
                    | inl k ↦ rw (e, b, k) refl
                    | inr k ↦
                        rw (e, b, k, Owned_Products.others-without id other w found (ground arith))
                          refl
                  ]
                ]
                | inr e ↦ rw e refl
              ])
        | inr (inr (m, m', ms, found)) ↦
            rw (Owned_Products.delete_product-many E id user w m m' ms found) refl
      ]

  pub verify_channel-Keeps :
      Keeps (seen other) (verify_channel (notification_channel_repository E) id user)
  verify_channel-Keeps = record {
    at = λ w. elim (Owned_Channels.verify_channel-outcome E id user w) [
      | inl same ↦ rw same refl
      | inr (m, found, e, readable, after) ↦
          rw
            (
              after,
              Owned_Channels.others-verified id (Owned_Channels.of_user other) w found
                  (ground arith) (λ x. refl),
              Owned_Channels.others-verified id is_unreadable w found readable (λ x. refl),
            )
            refl
    ];
  }

  pub delete_channel-Keeps :
      Keeps (seen other) (delete_channel (notification_channel_repository E) id user)
  delete_channel-Keeps = record {
    at = λ w. elim (Owned_Channels.delete_channel-outcome E id user w) [
      | inl same ↦ rw same refl
      | inr (m, found, e, readable, after) ↦
          rw
            (
              after,
              Owned_Channels.others-without id (Owned_Channels.of_user other) w found
                  (ground arith),
              Owned_Channels.others-without id is_unreadable w found readable,
            )
            refl
    ];
  }
