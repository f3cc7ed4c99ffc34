-- ===== src/Discovery/Examples.antt =====
-- The theorem on discovery (custom_components/cast/discovery.py and helpers.py) at a concrete input.
use ha_int_gcast.Discovery.Browser.{
  DiscoveryEvent, sets_up, begins_unload, goes_on, discovery_run, discovery_step, setup_discovery,
  begin_unload, go_on, release,
}
use ha_int_gcast.Discovery.Lock.{races, IsSafe, discovery_run-IsSafe}
use ha_int_gcast.Base.{List, ◌∷◌, ◌≡◌, refl, false, none, some, []}
use ha_int_gcast.Base.Dict.{get, put}
use ha_int_gcast.Discovery.{CastInfo, Dial, Models, fill_out_type}

abbrev speaker : CastInfo
speaker = record {
  uuid = some 7;
  model_name = "Kitchen speaker";
  friendly_name = some "Kitchen";
  host = some "10.0.0.9";
  port = some 8009;
  cast_type = none;
  manufacturer = none;
}

abbrev dial : Dial
dial = record {
  get_cast_type = λ i. record i { cast_type = some "audio"; manufacturer = some "Maker" };
  dynamic_groups = λ i. none;
}

abbrev unasked : Models
unasked = record { unknown_models = []; calls = 0 }

-- The second speaker of a model costs no call.
asked_once : (fill_out_type dial speaker (fill_out_type dial speaker unasked).1).1.calls ≡ 1
unfolding fill_out_type get put
asked_once = refl

-- Discovery starts, is stopped by an unload, and starts again.
abbrev restarted : List DiscoveryEvent
restarted = sets_up ∷ goes_on ∷ goes_on ∷ begins_unload ∷ sets_up ∷ []

restarted_quietly : races restarted ≡ false
unfolding races discovery_run discovery_step setup_discovery begin_unload go_on release
restarted_quietly = refl

discovery_run-IsSafe_example : IsSafe (discovery_run restarted)
discovery_run-IsSafe_example = discovery_run-IsSafe restarted restarted_quietly
