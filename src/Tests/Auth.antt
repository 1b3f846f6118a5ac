-- ===== src/Tests/Auth.antt =====
-- The theorems on authentication, on concrete worlds.
use stock_monitoring.Common.{String, some, List, [], ◌∷◌, ◌≡◌, refl, arith}
use stock_monitoring.Common.Decimal.{str, parse_int}
use stock_monitoring.Common.Decimal.RoundTrip.{parse_int-str}
use stock_monitoring.Auth.Attempts.{service, try_all, verify_otp-try_all}
use stock_monitoring.Api.Deps.{get_current_user_id, get_current_user_id-issued}
use stock_monitoring.Auth.Limits.{IsLimited, request_all, request_all-IsLimited}
use stock_monitoring.Auth.OneTime.{verify_otp-once}
use stock_monitoring.Auth.Requests.{post_all, post_all-wrong}
use stock_monitoring.Auth.Service.{AuthService, verify_otp}
use stock_monitoring.Domain.Action.{pure}
use stock_monitoring.Domain.Errors.{ok, err, invalid_otp}
use stock_monitoring.Storage.OtpChallenges.Latest.{IsLatest}
use stock_monitoring.Storage.World.{World}
use stock_monitoring.Tests.Samples.{token_jwt, world, challenge_row, hash, jwt}
use stock_monitoring.Tests.Sqlite.{sqlite}

newest : IsLatest "+911" challenge_row world.otp_challenges
newest = record {
  before = [];
  after = [];
  placed = refl;
  before_older = tt;
  after_older = tt;
  only = refl;
}

abbrev guesses : List String
guesses = "000000" ∷ "000001" ∷ "000002" ∷ "000003" ∷ "000004" ∷ []

abbrev here : AuthService World
here = service sqlite jwt hash (pure 5) 15 30 "+911"

abbrev after_guesses : World
after_guesses = try_all sqlite jwt hash (pure 5) 15 30 "+911" guesses world

verify_otp-try_all_example :
    verify_otp here "+911" "123456" after_guesses ≡ (err invalid_otp, after_guesses)
verify_otp-try_all_example =
    verify_otp-try_all sqlite jwt hash (pure 5) 15 30 "+911" guesses {c = challenge_row} world
      newest (refl, (refl, (refl, (refl, (refl, tt))))) (omega arith) "123456"

abbrev after_login : World
after_login = (verify_otp here "+911" "123456" world).1

verify_otp-once_example :
    verify_otp here "+911" "123456" after_login ≡ (err invalid_otp, after_login)
verify_otp-once_example =
    verify_otp-once sqlite jwt hash (pure 5) 15 30 "+911" {c = challenge_row} world newest "123456"
      refl refl "123456"

post_all-wrong_example : post_all sqlite jwt hash (pure 5) 15 30 "+911" guesses world ≡ world
post_all-wrong_example =
    post_all-wrong sqlite jwt hash (pure 5) 15 30 "+911" guesses {c = challenge_row} world newest
      (refl, (refl, (refl, (refl, (refl, tt)))))

parse_int-str_example : parse_int (str 1024) ≡ some 1024
parse_int-str_example = parse_int-str 1024

get_current_user_id-issued_example :
    get_current_user_id (record here { jwt = token_jwt }) (some "Bearer access7") world
    ≡ (ok 7, world)
unfolding str
get_current_user_id-issued_example =
    get_current_user_id-issued (record here { jwt = token_jwt }) 7 600 "access" 0 1_000_000 world
      refl refl

request_all-IsLimited_example : IsLimited (
    request_all sqlite jwt hash
      (pure 5)
      15
      30
      ((0, "+911") ∷ (60, "+911") ∷ (1, "+912") ∷ [])
      world)
request_all-IsLimited_example =
    request_all-IsLimited sqlite jwt hash (pure 5) 15 30
      ((0, "+911") ∷ (60, "+911") ∷ (1, "+912") ∷ []) world (λ v. (5, refl))
      (λ phone t le. ground arith)
