-- ===== src/Discovery.antt =====
-- Discovery, custom_components/cast/discovery.py, with `fill_out_missing_chromecast_info` of
-- custom_components/cast/helpers.py. The HTTP calls of pychromecast's `dial` are a parameter.
pub mod Browser
pub mod Lock
pub mod Updated
mod Examples
use ha_int_gcast.Base.{
  ℕ, suc, ◌≡◌, refl, ◌∙◌, ap, String, Bool, true, false, Option, none, some, List, [], ◌∷◌, ◌++◌,
  not, ◌&&◌, ◌||◌, is_some, if_elim, Option-cases, inl, inr, contains, option_beq, ◌==◌, string_eq,
  nat_eq, if◌then◌else◌,
}
use ha_int_gcast.Base.Dict.{Dict, get, put, get-put_self}
use ha_int_gcast.Health.Types.{Uuid, Moment}
use ha_int_gcast.Health.Ledger.{Ledger}
use ha_int_gcast.Health.Requests.{update_identity}
use ha_int_gcast.Topology.Types.{ChromecastInfo, TopologyTracker}
use ha_int_gcast.Topology.Groups.{record_discovery}
use ha_int_gcast.Repairs.Manager.{RepairManager}
use ha_int_gcast.Repairs.Stale.{device_seen}

-- pychromecast's `CastInfo`, without its services
pub record CastInfo : Type 0 where
  pub uuid : Option Uuid
  pub model_name : String
  pub friendly_name : Option String
  pub host : Option String
  pub port : Option ℕ
  pub cast_type : Option String
  pub manufacturer : Option String

-- `get_cast_type`, and the uuids of the dynamic groups in the answer of `get_multizone_status`, if any
pub record Dial : Type 0 where
  pub get_cast_type : CastInfo → CastInfo
  pub dynamic_groups : CastInfo → Option (List Uuid)

-- `unknown_models`, and how often `get_cast_type` was called
pub record Models : Type 0 where
  pub unknown_models : Dict String (Option String × Option String)
  pub calls : ℕ

abbrev pub with_model : CastInfo → Option String × Option String → CastInfo
with_model i (cast_type, manufacturer) = record i {
  cast_type = cast_type;
  manufacturer = manufacturer;
}

abbrev pub looked_up :
    Dial → CastInfo → Option (Option String × Option String) → Models → CastInfo × Models
looked_up dial i (some known) m = (with_model i known, m)
looked_up dial i none m =
    let found = dial.get_cast_type i in
    (
      found,
      record {
        unknown_models = put m.unknown_models i.model_name (found.cast_type, found.manufacturer);
        calls = suc m.calls;
      },
    )

-- The first half of `fill_out_missing_chromecast_info`
unfoldable pub fill_out_type : Dial → CastInfo → Models → CastInfo × Models
fill_out_type dial i m =
    if is_some i.cast_type && is_some i.manufacturer
    then (i, m)
    else looked_up dial i (get m.unknown_models i.model_name) m

abbrev is_group : CastInfo → Bool
is_group i = option_beq i.cast_type (some "group")

abbrev is_listed : Option Uuid → Option (List Uuid) → Bool
is_listed (some u) (some groups) = contains u groups
is_listed u groups = false

-- The second half, which asks whether a group is dynamic unless that is known
unfoldable pub fill_out_group : Dial → CastInfo → Option Bool → Option Bool
fill_out_group dial i is_dynamic =
    if not (is_group i) || is_some is_dynamic
    then none
    else some (is_listed i.uuid (dial.dynamic_groups i))

abbrev pub chromecast_info : Uuid → CastInfo → Option Bool → ChromecastInfo
chromecast_info uuid i is_dynamic = record {
  uuid = uuid;
  friendly_name = i.friendly_name;
  host = i.host;
  port = i.port;
  is_audio_group = is_group i;
  is_dynamic_group = is_dynamic;
}

-- `fill_out_missing_chromecast_info`
unfoldable pub fill_out : Dial → Uuid → CastInfo → Option Bool → Models → ChromecastInfo × Models
fill_out dial uuid i is_dynamic m =
    let (found, m') = fill_out_type dial i m in
    (chromecast_info uuid found (fill_out_group dial i is_dynamic), m')

-- The part of `runtime_data` that a discovery reaches, each where it is set up; `discovered` is the
-- signal to the entities.
pub record RuntimeData (W : Type 0) : Type 0 where
  pub models : Models
  pub topology : Option TopologyTracker
  pub repairs : Option RepairManager
  pub ledger : Option (Ledger W)
  pub discovered : List ChromecastInfo

abbrev on_present {ℓ} : {A : Type ℓ} → (A → A) → Option A → Option A
on_present f none = none
on_present f (some a) = some (f a)

module _ {W : Type 0} (dial : Dial) (now : Moment) where
  abbrev pub announce : ChromecastInfo → Models → RuntimeData W → RuntimeData W
  announce info m r = record {
    models = m;
    topology = on_present (record_discovery info) r.topology;
    repairs = on_present (device_seen now info.uuid) r.repairs;
    ledger =
        on_present
          (update_identity now info.uuid (record {
            entity_id = none;
            name = info.friendly_name;
            host = info.host;
            port = info.port;
            seen = true;
          }))
          r.ledger;
    discovered = r.discovered ++ info ∷ [];
  }

  abbrev announce_filled : ChromecastInfo × Models → RuntimeData W → RuntimeData W
  announce_filled (info, m) r = announce info m r

  abbrev discover_with : Option Uuid → CastInfo → RuntimeData W → RuntimeData W
  discover_with none i r = r
  discover_with (some uuid) i r = announce_filled (fill_out dial uuid i none r.models) r

  -- `discover_chromecast`, with the calls that it schedules on the event loop
  unfoldable pub discover : CastInfo → RuntimeData W → RuntimeData W
  discover i r = discover_with i.uuid i r

filled-calls :
    (dial : Dial) (j : CastInfo) (m : Models) (known : Option String × Option String)
    → get m.unknown_models j.model_name ≡ some known
    → (fill_out_type dial j m).1.calls ≡ m.calls
unfolding fill_out_type
filled-calls dial j m known e =
    if_elim (λ r. r.1.calls ≡ m.calls) (is_some j.cast_type && is_some j.manufacturer) (j, m)
      (looked_up dial j (get m.unknown_models j.model_name) m) refl (rw e refl)

-- After a look-up the model is known.
remembered :
    (dial : Dial) (i : CastInfo) (m : Models)
    → (is_some i.cast_type && is_some i.manufacturer) ≡ false
    → (known : Option String × Option String) × (get
          (fill_out_type dial i m).1.unknown_models
          i.model_name
        ≡ some known)
unfolding fill_out_type
remembered dial i m incomplete = elim (Option-cases (get m.unknown_models i.model_name)) [
  | inr (known, there) ↦ (known, rw (incomplete, there) there)
  | inl missing ↦
      let found = dial.get_cast_type i in
      (
        (found.cast_type, found.manufacturer),
        rw (incomplete, missing) (get-put_self m.unknown_models i.model_name _),
      )
]

-- A model whose type was asked for once is not asked for again: after a device of unknown type or
-- manufacturer has been filled out, another one of the same model costs no HTTP call.
pub fill_out_type-once :
    (dial : Dial) (i j : CastInfo) (m : Models)
    → (is_some i.cast_type && is_some i.manufacturer) ≡ false
    → j.model_name ≡ i.model_name
    → let m' = (fill_out_type dial i m).1 in (fill_out_type dial j m').1.calls ≡ m'.calls
fill_out_type-once dial i j m incomplete same =
    let (known, there) = remembered dial i m incomplete in
    filled-calls dial j (fill_out_type dial i m).1 known
      (ap (get (fill_out_type dial i m).1.unknown_models) same ∙ there)
