-- ===== src/Control/Producers/Tests.antt =====
-- Two producers, of which one is disabled, and bodies that are refused.
use beacn.Base.{◌≡◌, refl, false, String, [], ◌∷◌, none, some, ◌==◌}
use beacn.Base.Int.{pos}
use beacn.Base.Strip.{strip}
use beacn.Errors.{ok, err, uncaught, invalid}
use beacn.Auth.{Producer}
use beacn.Auth.Tests.{hash, orders_api, orders_key, used, resolved}
use beacn.Control.Producers.{Registry, create_for, producers_create, producers_set_status}
use beacn.Control.Producers.Disabling.{producers_set_status-resolve_api_key}

abbrev billing : Producer
billing = record {
  id = "prd_2";
  name = "Billing";
  slug = "billing";
  environment = "production";
  status = "active";
}

abbrev registry : Registry
registry = record { producers = orders_api ∷ billing ∷ []; keys = orders_key ∷ [] }

abbrev one_left : Registry
one_left = record {
  producers = orders_api ∷ record billing { status = "disabled" } ∷ [];
  keys = orders_key ∷ [];
}

-- A stand-in for `str.lower`.
abbrev same : String → String
same s = s

run : Unit {0}
unfolding producers_create create_for producers_set_status strip
run = tt

disabled : producers_set_status "prd_2" false registry ≡ ok one_left
unfolding run
disabled = refl

refusals :
    (producers_create same "prd_3" " " "production" none registry ≡ invalid "name is required")
    × (producers_create same "prd_3" "new" "nowhere" none registry ≡ invalid "no such environment")
    × (producers_create same "prd_3" "billing" "production" none registry ≡ err uncaught)
unfolding run
refusals = (refl, refl, refl)

producers_set_status-resolve_api_key_example : ("prd_1" == "prd_2") ≡ false
producers_set_status-resolve_api_key_example =
    producers_set_status-resolve_api_key hash "prd_2" registry one_left
      (some "bEARER  bk_ab12_s3cret ") none (pos 9) used orders_api disabled resolved
