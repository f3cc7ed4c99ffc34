-- ===== src/Repairs/Store.antt =====
-- What `RepairManager` keeps across restarts, custom_components/cast/issues.py: `_data_to_save`,
-- `async_flush`, `async_load` and `async_shutdown`. The texts of uuids and times are a parameter.
use ha_int_gcast.Base.{ℕ, ◌≡◌, String, Option, none, some, [], ◌∷◌, nat_eq}
use ha_int_gcast.Base.Dict.{Dict, put}
use ha_int_gcast.Health.Types.{Uuid}
use ha_int_gcast.Health.Listener.{Listener}
use ha_int_gcast.Health.Ledger.{Ledger, health_of, store}
use ha_int_gcast.Health.Requests.{add_listener, remove_listener}
use ha_int_gcast.Repairs.Manager.{SeenKey, RepairManager, key_eq}

-- `str(uuid)`, `UUID(text)`, `isoformat` and `parse_datetime`, with the law that what is written is
-- read back.
pub record Texts : Type 0 where
  pub str : Uuid → String
  pub parse_uuid : String → Option Uuid
  pub str_key : SeenKey → String
  pub parse_key : String → SeenKey
  pub isoformat : ℕ → String
  pub parse_datetime : String → Option ℕ
  pub uuid_back : (u : Uuid) → parse_uuid (str u) ≡ some u
  pub key_back : (k : SeenKey) → parse_key (str_key k) ≡ k
  pub time_back : (t : ℕ) → parse_datetime (isoformat t) ≡ some t

-- The file that the Store keeps; a missing key is an empty dict.
pub record Saved : Type 0 where
  pub last_seen : Dict String String
  pub tracked_since : Dict String String

-- The body of the first loop of `async_load`. A key that is no uuid, which nothing looks up, is left out.
abbrev pub add_seen : Option Uuid → Option ℕ → Dict Uuid ℕ → Dict Uuid ℕ
add_seen (some u) (some t) d = put d u t
add_seen u t d = d

abbrev pub add_tracked : SeenKey → Option ℕ → Dict SeenKey ℕ → Dict SeenKey ℕ
add_tracked key none d = d
add_tracked key (some t) d = put d key t

module _ (x : Texts) where
  -- `{uuid: stamp.isoformat() for uuid, stamp in ….items()}`
  unfoldable pub saved_seen : Dict Uuid ℕ → Dict String String
  saved_seen [] = []
  saved_seen ((u, t) ∷ d) = (x.str u, x.isoformat t) ∷ saved_seen d

  unfoldable pub saved_tracked : Dict SeenKey ℕ → Dict String String
  saved_tracked [] = []
  saved_tracked ((k, t) ∷ d) = (x.str_key k, x.isoformat t) ∷ saved_tracked d

  -- `_data_to_save`, which `async_flush` writes
  unfoldable pub data_to_save : RepairManager → Saved
  data_to_save m = record {
    last_seen = saved_seen m.last_seen;
    tracked_since = saved_tracked m.tracked_since;
  }

  -- The first loop of `async_load`

  unfoldable pub load_seen : Dict String String → Dict Uuid ℕ → Dict Uuid ℕ
  load_seen [] d = d
  load_seen ((key, stamp) ∷ rest) d =
      load_seen rest (add_seen (x.parse_uuid key) (x.parse_datetime stamp) d)

  unfoldable pub load_tracked : Dict String String → Dict SeenKey ℕ → Dict SeenKey ℕ
  load_tracked [] d = d
  load_tracked ((key, stamp) ∷ rest) d =
      load_tracked rest (add_tracked (x.parse_key key) (x.parse_datetime stamp) d)

  unfoldable pub load_manager : Saved → RepairManager → RepairManager
  load_manager saved m = record m {
    last_seen = load_seen saved.last_seen m.last_seen;
    tracked_since = load_tracked saved.tracked_since m.tracked_since;
  }

module _ {W : Type 0} where
  -- The second loop: `ledger.device(UUID(uuid)).last_seen = stamp`
  unfoldable pub write_seen : Dict Uuid ℕ → Ledger W → Ledger W
  write_seen [] l = l
  write_seen ((u, t) ∷ d) l =
      write_seen d (store u (record (health_of l u) { last_seen = some t }) l)

  -- `async_load`: the manager, and the ledger with the manager's listener
  unfoldable pub async_load :
      Texts → Saved → Listener W → RepairManager → Ledger W → RepairManager × Ledger W
  async_load x saved listener m l =
      let m' = load_manager x saved m in (m', add_listener listener (write_seen m'.last_seen l))

  -- `async_shutdown`, by the identity of the listener if it is attached
  unfoldable pub detach_manager : Option ℕ → Ledger W → Option ℕ × Ledger W
  detach_manager none l = (none, l)
  detach_manager (some ident) l = (none, remove_listener ident l)
