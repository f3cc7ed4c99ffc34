-- ===== src/Repairs/RestartExamples.antt =====
-- The theorem on restarts (custom_components/cast/issues.py) at a concrete input, with the texts of
-- Repairs/Unary.
use ha_int_gcast.Base.{◌≡◌, refl, none, List, [], ◌∷◌, nat_eq}
use ha_int_gcast.Base.Dict.{get}
use ha_int_gcast.Health.Ledger.{Urls, health_of}
use ha_int_gcast.Health.Run.{init}
use ha_int_gcast.Repairs.Operations.{Operation, sees, operate_all, new_manager}
use ha_int_gcast.Repairs.Listen.{repair_listener}
use ha_int_gcast.Repairs.Store.{data_to_save, async_load}
use ha_int_gcast.Repairs.Unary.{unary}
use ha_int_gcast.Repairs.Restart.{async_load-last_seen}

abbrev seen_twice : List Operation
seen_twice =
    sees (record { utc = 9; monotonic = 9 }) 7 ∷ sees (record { utc = 4; monotonic = 4 }) 8 ∷ []

abbrev urls : Urls
urls = record { overrides = []; internal = none; external = none }

nothing_there : (init urls new_manager).devices ≡ []
unfolding init
nothing_there = refl

async_load-last_seen_example :
    let m = operate_all seen_twice in
    let (m', l') =
      async_load unary
        (data_to_save unary m)
        (repair_listener 1)
        new_manager
        (init urls new_manager) in
    (get m'.last_seen 7 ≡ get m.last_seen 7) × ((health_of l' 7).last_seen ≡ get m.last_seen 7)
async_load-last_seen_example =
    async_load-last_seen unary seen_twice (repair_listener 1) (init urls new_manager) 7
      nothing_there
