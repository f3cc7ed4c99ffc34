-- ===== src/Lib.antt =====
-- The Google Cast integration for Home Assistant with delivery health (custom_components/cast): for
-- every playback request it records whether the speaker really fetched and played the media, it
-- probes idle speakers, and it raises repair issues for what keeps failing.
--
-- How the parts interact. The ledger and what listens to it run on Home Assistant's event loop, one
-- callback at a time. What spans an await or runs on a thread of its own is cut into steps that may
-- interleave: probes, tear-downs of devices, the lock of the discovery, unloading, and the writes of a
-- group's status by the threads of pychromecast; its other callbacks are one step each. The
-- media player entities and the probe coordinator begin requests on the delivery ledger (health.py);
-- device status callbacks, exceptions and timers resolve them. Every resolution is one record: it
-- updates the device, is kept in a bounded deque, fired as an event, and handed to the listeners.
-- Two listeners exist: the coordinator's circuit breaker (coordinator.py) and the repair manager
-- (issues.py). The topology tracker (topology.py) places devices in subnets, writes the placement
-- to the ledger's devices, and hands the repair manager its findings about groups and adapters.
--
-- Where what is modelled:
--   Base       Booleans, options, lists over the native numbers, equality as an interface, and
--              Python's dict as an association list in insertion order (Base/Dict); Base/Result and
--              Base/Action are monads for code that raises, without and with a state.
--   Health     custom_components/cast/health.py. Types are its dataclasses; Ledger has the state
--              with `_append` and `_resolve`; Verdicts has the conditions of
--              `async_media_status` and the classification of exceptions; Requests has one function
--              for each callback; Run is the event loop. Listener is the interface between the ledger
--              and its listeners, with the law that a listener writes at most the circuit.
--   Probe      custom_components/cast/coordinator.py. Decide is `_decide`, Breaker is
--              `_async_on_record` as a listener, Tasks is `_async_probe` cut at its awaits, Cycle
--              the update cycle, Events any interleaving with the ledger; Opening, Holds and Circuit
--              are the breaker on the ledger; Clip is custom_components/cast/probe.py.
--   Topology   custom_components/cast/topology.py. Address is the part of Python's `ipaddress` that
--              the tracker uses, Networks and Groups are its methods, Placement its writes to the ledger.
--   Repairs    custom_components/cast/issues.py. Registry is the issue registry by issue id, Manager and
--              Stale are the manager's methods, Operations any sequence of them, Listen the listener of the
--              ledger, Heard the manager and the ledger together. Store is what it keeps across restarts,
--              Restart its way back; Flow is custom_components/cast/repairs.py.
--   Playlist   custom_components/cast/helpers.py: Lines, Items and Entries are `parse_m3u`, Pls is `parse_pls`
--              and `parse_playlist`, Texts the strings that they give.
--   Callbacks  `CastStatusListener` of custom_components/cast/helpers.py.
--   Urls       custom_components/cast/urls.py, with yarl as a parameter.
--   Discovery  `discover_chromecast` of custom_components/cast/discovery.py with the filling out of
--              custom_components/cast/helpers.py; it feeds the topology, the repairs and the ledger.
--              Browser is the start and stop of the browser, Lock what its lock goes through, Updated what a
--              change of the entry does.
--   Player     custom_components/cast/media_player.py. Types is the entity, Callbacks and Lifecycle what
--              pychromecast and the dispatcher call, Media and Attributes its properties, Calls the log of
--              what the device is asked with the commands that are one call, Requests and PlayMedia the
--              tracked playback, Announce announcements, Setup which entities exist, Dashboard the
--              Lovelace cast, Browse the media browser. Sound, Keeps, Selection, Silence, Books, Tracked,
--              Target, Announced, Counted and Owners are what holds.
--   Options    custom_components/cast/config_flow.py: Flow is the setup and the first options form,
--              Overrides the form for the base URL of a device.
--   Sensors    custom_components/cast/sensor.py: Values is what a sensor shows, Setup what a discovery adds.
--   Entry      custom_components/cast/__init__.py: Setup puts the ledger, the manager, the coordinator and
--              the discovery together and shuts them down in order; HomeCast is the user and the token of
--              custom_components/cast/home_assistant_cast.py.
--   Diagnostics  custom_components/cast/diagnostics.py, and Mac for custom_components/cast/mac.py.
--   Release    scripts/set_version.py with the expression of scripts/release_config.py: Calver is
--              the reading, writing and counting up of versions, Fields the files that hold the version,
--              SetVersion how they are written.
--
-- How state is passed. A callback is a function from the state to the state; a ledger carries what it
-- does to Home Assistant (live timers, events, signals) as fields, and the state of its listeners as
-- the field `others` of a type `W` that the theorems leave open. Handles and identities of objects are
-- numbers drawn from counters. Every callback reads the two clocks once, as a `Moment`.
--
-- Numbers and bounds. Times are whole milliseconds, the resolution at which the source rounds; probe
-- intervals and backoffs are seconds, as in the source. The deque holds 50 records. A uuid is its
-- 128-bit number, whose order is the order of its text. Every loop is over a list, but
-- for the digits of a number in Release, which take the number itself as fuel: a number has no more
-- digits than that.
--
-- Exceptions are the answers of the `isinstance` tests that the code makes. Texts that are only
-- shown stay data: an f-string is a constructor with what it interpolates. Log lines, `as_dict`
-- and the formatting of placeholders are left out. Home Assistant, pychromecast, yarl,
-- configparser and what `urlparse` asks of a host in balanced brackets are parameters: records of
-- functions, with the laws that a theorem relies on as fields. Where the media player awaits, the
-- other callbacks that run meanwhile are an argument: any change of the state that keeps what the
-- theorem names.
--
-- Not modelled: custom_components/cast/services.py and const.py, which register a service and name
-- constants; in custom_components/cast/diagnostics.py the entry's own data, what is redacted and the
-- formatting by `as_dict`; in the scripts the command lines, the call of git, and
-- scripts/build_release_artifacts.py, which packs an archive.
pub mod Base
pub mod Health
pub mod Probe
pub mod Topology
pub mod Repairs
pub mod Playlist
pub mod Callbacks
pub mod Urls
pub mod Discovery
pub mod Player
pub mod Release
pub mod Options
pub mod Sensors
pub mod Entry
pub mod Diagnostics
