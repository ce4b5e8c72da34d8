-- ===== src/Tests/Endpoints.antt =====
-- Concrete runs of the token registry.
use text.Mathlib.TextEquality.{eq_iff}
use tyo_mq.Prelude.{
  ◌+◌, ◌≡◌, ◌<◌, refl, true, false, none, some, List, [], ◌∷◌, string_eq, or_default, arith,
}
use tyo_mq.Prelude.Dict
use tyo_mq.TokenRegistry.{
  TokenRegistry, Given, register, unregister, count, place, sweep_expired, surplus,
}
use tyo_mq.TokenRegistry.Coalesce.{coalesce_ok, reset_coalesce}
use tyo_mq.TokenRegistry.Restore.{Options, init}
use tyo_mq.TokenRegistry.Calls.{Call, register_call, coalesce_call, reset_call, step, run}
use tyo_mq.TokenRegistry.Wakes.{Later, coalesce_ok-coalesce_ok}

abbrev two_each : Options
two_each = record {
  max_per_identity = some 2;
  coalesce_window_ms = none;
  max_identities = none;
  ttl_ms = none;
}

abbrev phone : Given
phone = record {
  transport = "apns";
  token = "p";
  app_id = none;
  env = some (some "sandbox");
  min_priority = none;
  now = some 10;
}

abbrev tablet : Given
tablet = record {
  transport = "apns";
  token = "t";
  app_id = none;
  env = none;
  min_priority = none;
  now = some 20;
}

abbrev laptop : Given
laptop = record {
  transport = "web";
  token = "l";
  app_id = none;
  env = none;
  min_priority = some (some 5);
  now = none;
}

abbrev new : TokenRegistry
new = (init two_each none 0).0

abbrev devices : List Call
devices =
    register_call "default" "bob" phone 0
    ∷ register_call "default" "bob" tablet 0
    ∷ register_call "default" "bob" laptop 30
    ∷ []

oldest_goes :
    (count (run new devices) "default" "bob" ≡ 2)
    × ((unregister (run new devices) "default" "bob" tablet).1 ≡ 1)
    × ((unregister (run new devices) "default" "bob" phone).1 ≡ 0)
    × ((coalesce_ok new "default" "bob" (some 5) none 0).1 ≡ true)
unfolding run step init register unregister coalesce_ok place sweep_expired surplus Dict.insert
    Dict.lookup Dict.erase string_eq
oldest_goes = (refl, refl, refl, refl)

abbrev held : TokenRegistry
held = record {
  max_per_identity = 2;
  coalesce_window_ms = 10000;
  max_identities = 0;
  ttl_ms = 0;
  has_store = true;
  by_realm = [];
  last_wake = [];
  touched = [];
}

abbrev between : List Call
between =
    coalesce_call "default" "carol" (some 120) none 0
    ∷ reset_call "default" "carol"
    ∷ register_call "default" "bob" phone 0
    ∷ []

woken : (coalesce_ok held "default" "bob" (some 100) none 0).1 ≡ true
unfolding coalesce_ok Dict.lookup
woken = refl

between-Later : Later "default" "bob" 100 between
between-Later = (omega arith, (ground (arith, eq_iff "carol" "bob"), tt))

between-window :
    (run (coalesce_ok held "default" "bob" (some 100) none 0).0 between).coalesce_window_ms ≡ 10000
unfolding run step coalesce_ok reset_coalesce register sweep_expired Dict.lookup Dict.insert
    string_eq
between-window = refl

between-soon :
    or_default (some 150) 0
    < or_default (some 100) 0
      + or_default none
          (run (coalesce_ok held "default" "bob" (some 100) none 0).0 between).coalesce_window_ms
between-soon = rw between-window (omega arith)

coalesce_ok-coalesce_ok_example :
    (coalesce_ok
      (run (coalesce_ok held "default" "bob" (some 100) none 0).0 between)
      "default"
      "bob"
      (some 150)
      none
      0).1
    ≡ false
coalesce_ok-coalesce_ok_example =
    coalesce_ok-coalesce_ok held "default" "bob" (some 100) none (some 150) none 0 0 between woken
      between-Later between-soon
