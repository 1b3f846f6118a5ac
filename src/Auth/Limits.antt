-- ===== src/Auth/Limits.antt =====
-- How many codes a phone number is sent: the limit of `request_otp`, over the SQL adapters.
use stock_monitoring.Common.{
  ℕ, ◌+◌, ◌-◌, ◌≤◌, String, str_eq, str_eq_iff, subst, Bool, false, ◌&&◌, leb, Bool-cases, inl, inr,
  List, [], ◌∷◌, ◌++◌, filter, filter-append, length, length-append, if◌then◌else◌, ◌≡◌, arith,
}
use stock_monitoring.Auth.Attempts.{service}
use stock_monitoring.Auth.Service.{Jwt, Hash, request_otp}
use stock_monitoring.Auth.Wiring.{send_otp}
use stock_monitoring.Domain.Action.{Action}
use stock_monitoring.Domain.Entities.{Datetime}
use stock_monitoring.Domain.Errors.{Result, ok}
use stock_monitoring.Storage.Engine.{Engine}
use stock_monitoring.Storage.OtpChallenges.{count_recent, create}
use stock_monitoring.Storage.Rows.{OtpChallengeModel}
use stock_monitoring.Storage.World.{World}

-- A challenge of a phone number that was created in the hour before a time.
abbrev pub is_of_hour : String → Datetime → OtpChallengeModel → Bool
is_of_hour phone t m = str_eq m.phone_number phone && leb (t - 3_600_000_000) m.created_at

abbrev pub of_hour : String → Datetime → List OtpChallengeModel → ℕ
of_hour phone t rows = length (filter (is_of_hour phone t) rows)

-- From now on, no hour has more than five challenges of one phone number.
abbrev pub IsLimited : World → Type 0
IsLimited w = (phone : String) (t : Datetime) → w.now ≤ t → of_hour phone t w.otp_challenges ≤ 5

-- The hour before a later time has no more of the same rows.
of_hour-later :
    (phone : String) (s t : Datetime) (rows : List OtpChallengeModel)
    → s ≤ t
    → of_hour phone t rows ≤ of_hour phone s rows
of_hour-later phone s t [] le = omega arith
of_hour-later phone s t (m ∷ rows) le = ground (arith, of_hour-later phone s t rows le)

of_hour-add :
    (phone : String) (t : Datetime) (m : OtpChallengeModel) (rows : List OtpChallengeModel)
    → of_hour phone t (rows ++ m ∷ [])
      ≤ of_hour phone t rows + (if str_eq m.phone_number phone then 1 else 0)
of_hour-add phone t m rows =
    rw
      (
        filter-append (is_of_hour phone t) rows (m ∷ []),
        length-append (filter (is_of_hour phone t) rows) (filter (is_of_hour phone t) (m ∷ [])),
      )
      (ground arith)

-- A new challenge does not go over the limit if its phone number had less than five in the hour.
IsLimited-add :
    (w : World) (m : OtpChallengeModel)
    → leb 5 (of_hour m.phone_number w.now w.otp_challenges) ≡ false
    → IsLimited w
    → IsLimited (record w { db = record w.db { otp_challenges = w.otp_challenges ++ m ∷ [] } })
IsLimited-add w m free limited phone t le = elim (Bool-cases (str_eq m.phone_number phone)) [
  | inl e ↦ ground (
    arith,
    of_hour-add phone t m w.otp_challenges,
    of_hour-later phone w.now t w.otp_challenges le,
    subst (λ p. leb 5 (of_hour p w.now w.otp_challenges) ≡ false)
        ((str_eq_iff m.phone_number phone).0 e) free,
    e,
  )
  | inr e ↦ ground (arith, of_hour-add phone t m w.otp_challenges, limited phone t le, e)
]

module _ (E : Engine) (jwt : Jwt) (hash : Hash) (randbelow : Action World ℕ)
    (access_minutes refresh_days : ℕ) where
  abbrev request : String → World → Result (Unit {0}) × World
  request phone w =
      request_otp (service E jwt hash randbelow access_minutes refresh_days phone) phone w

  -- The requests of a list, each some time after the one before it.
  unfoldable pub request_all : List (ℕ × String) → World → World
  request_all [] w = w
  request_all ((wait, phone) ∷ requests) w =
      request_all requests (request phone (record w { now = w.now + wait })).1

  request_otp-IsLimited :
      (phone : String) (drawn : ℕ) (w : World)
      → randbelow w ≡ (ok drawn, w)
      → IsLimited w
      → IsLimited (request phone w).1
  unfolding request_otp count_recent create send_otp
  request_otp-IsLimited phone drawn w draws limited =
      elim (Bool-cases (leb 5 (of_hour phone w.now w.otp_challenges))) [
        | inl e ↦ rw e limited
        | inr e ↦ rw (e, draws) (IsLimited-add w _ e limited)
      ]

  -- If the random source leaves the world alone: from a world in which no hour from now on has more
  -- than five challenges of one phone number, requests for codes in
  -- any number, for any phone numbers and at any later times lead to such a world again.
  pub request_all-IsLimited :
      (requests : List (ℕ × String)) (w : World)
      → ((v : World) → (drawn : ℕ) × (randbelow v ≡ (ok drawn, v)))
      → IsLimited w
      → IsLimited (request_all requests w)
  unfolding request_all
  request_all-IsLimited [] w draws limited = limited
  request_all-IsLimited ((wait, phone) ∷ requests) w draws limited =
      let later = record w { now = w.now + wait } in
      let (drawn, e) = draws later in
      request_all-IsLimited requests _ draws
        (request_otp-IsLimited phone drawn later e (λ p t le. limited p t (omega (arith, le))))
