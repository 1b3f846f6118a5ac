-- ===== src/Domain/Keeps.antt =====
-- Actions that leave a part of the state as it is: what a client may rely on across a call that it
-- does not look into.
use stock_monitoring.Common.{true, false, if◌then◌else◌, Bool, Option, none, some, ◌≡◌, refl, ◌∙◌}
use stock_monitoring.Domain.Action.{
  Action, pure, gets, lift, raise, require, modify, continue, ◌>>=◌,
}
use stock_monitoring.Domain.Errors.{Error, Result, ok, err}

-- An action leaves what is seen of the state as it is, whether it returns or raises.
pub record Keeps {W X A : Type 0} (view : W → X) (m : Action W A) : Type 0 where
  pub at : (w : W) → view (m w).1 ≡ view w

module _ {W X : Type 0} {view : W → X} where
  pub Keeps-pure : {A : Type 0} (a : A) → Keeps view (pure {W = W} a)
  Keeps-pure a = record { at = λ w. refl }

  pub Keeps-require : {A : Type 0} (e : Error) (o : Option A) → Keeps view (require {W = W} e o)
  Keeps-require e none = record { at = λ w. refl }
  Keeps-require e (some a) = record { at = λ w. refl }

  Keeps-continue :
      {A B : Type 0} (r : Result A) (f : A → Action W B)
      → ((a : A) → Keeps view (f a))
      → Keeps view (continue r f)
  Keeps-continue (ok a) f kf = kf a
  Keeps-continue (err e) f kf = record { at = λ w. refl }

  pub Keeps-bind :
      {A B : Type 0} (m : Action W A) (f : A → Action W B)
      → Keeps view m
      → ((a : A) → Keeps view (f a))
      → Keeps view (m >>= f)
  Keeps-bind m f km kf = record { at = λ w. (Keeps-continue (m w).0 f kf).at (m w).1 ∙ km.at w }

  pub Keeps-gets : {A : Type 0} (f : W → A) → Keeps view (gets f)
  Keeps-gets f = record { at = λ w. refl }

  pub Keeps-lift : {A : Type 0} (r : Result A) → Keeps view (lift {W = W} r)
  Keeps-lift r = record { at = λ w. refl }

  pub Keeps-raise : {A : Type 0} (e : Error) → Keeps view (raise {W = W} {A = A} e)
  Keeps-raise e = record { at = λ w. refl }

  -- A query, and what is done with its rows.
  pub Keeps-query :
      {A B : Type 0} (f : W → A) (g : A → Action W B)
      → ((a : A) → Keeps view (g a))
      → Keeps view (gets f >>= g)
  Keeps-query f g kg = record { at = λ w. (kg (f w)).at w }

  pub Keeps-option :
      {A B : Type 0} (f : Option A → Action W B)
      → Keeps view (f none)
      → ((a : A) → Keeps view (f (some a)))
      → (o : Option A) → Keeps view (f o)
  Keeps-option f kn ks none = kn
  Keeps-option f kn ks (some a) = ks a

  -- A query for at most one row, and what is done without it and with it.
  pub Keeps-find :
      {Rows Row B : Type 0} (rows : W → Rows) (scalar : Rows → Result (Option Row))
      (f : Option Row → Action W B)
      → Keeps view (f none)
      → ((m : Row) → Keeps view (f (some m)))
      → Keeps view (gets rows >>= λ r. lift (scalar r) >>= f)
  Keeps-find rows scalar f kn ks =
      Keeps-query rows _
        (λ r. Keeps-bind (lift (scalar r)) f (Keeps-lift (scalar r)) (Keeps-option f kn ks))

  -- A query whose rows are made into entities.
  pub Keeps-select :
      {Rows B : Type 0} (rows : W → Rows) (entities : Rows → Result B)
      → Keeps view (gets rows >>= λ r. lift (entities r))
  Keeps-select rows entities = record { at = λ w. refl }

  pub Keeps-if :
      {A : Type 0} (b : Bool) {m k : Action W A}
      → Keeps view m
      → Keeps view k
      → Keeps view (if b then m else k)
  Keeps-if true km kk = km
  Keeps-if false km kk = kk

  pub Keeps-modify :
      {A : Type 0} (r : Result A) (f : A → W → W)
      → ((a : A) (w : W) → view (f a w) ≡ view w)
      → Keeps view (lift {W = W} r >>= λ a. modify (f a))
  Keeps-modify r f kf = Keeps-bind (lift r) _ (Keeps-lift r) (λ a. record { at = kf a })

-- A query after a call leaves the state that the call leaves.
pub continue-gets :
    {W A B : Type 0} (r : Result A) (f : W → B) (w : W) → (continue r (λ a. gets f) w).1 ≡ w
continue-gets (ok a) f w = refl
continue-gets (err e) f w = refl

-- A predicate on the state holds after an action if it holds before it, whether the action returns or
-- raises.
pub record Preserves {W A : Type 0} (P : W → Type 0) (m : Action W A) : Type 0 where
  pub at : (w : W) → P w → P (m w).1

module _ {W : Type 0} {P : W → Type 0} where
  pub Preserves-pure : {A : Type 0} (a : A) → Preserves P (pure {W = W} a)
  Preserves-pure a = record { at = λ w h. h }

  pub Preserves-require :
      {A : Type 0} (e : Error) (o : Option A) → Preserves P (require {W = W} e o)
  Preserves-require e none = record { at = λ w h. h }
  Preserves-require e (some a) = record { at = λ w h. h }

  -- What follows a call may count on the call having returned what it is given.
  pub Preserves-bind :
      {A B : Type 0} (m : Action W A) (f : A → Action W B)
      → Preserves P m
      → ((a : A) (w : W) → (m w).0 ≡ ok a → Preserves P (f a))
      → Preserves P (m >>= f)
  Preserves-bind m f pm pf = record {
    at = λ w h. go (m w).0 (m w).1 (λ a returned. pf a w returned) (pm.at w h);
  }
    where
      go :
          (r : Result _) (w' : W)
          → ((a : _) → r ≡ ok a → Preserves P (f a))
          → P w'
          → P (continue r f w').1
      go (ok a) w' k h = (k a refl).at w' h
      go (err e) w' k h = h
