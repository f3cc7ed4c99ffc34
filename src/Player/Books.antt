-- ===== src/Player/Books.antt =====
-- What a call of the device (custom_components/cast/media_player.py) leaves alone, and which exceptions
-- `api_error` lets through.
use ha_int_gcast.Base.{String, Bool, true, false, Option, List, ◌≡◌, refl}
use ha_int_gcast.Base.Result.{Result, returned, raised}
use ha_int_gcast.Base.Action.{continue_with}
use ha_int_gcast.Player.Calls.{
  AppData, Command, quick_play, Raised, cast_error, timeout_error, not_implemented, home_assistant,
  foreign, World, Method, quick_play_app, perform, api_error, get_chromecast, converted,
}
use ha_int_gcast.Player.Requests.{watched}

abbrev pub is_cast_error_raised : {A : Type 0} → Result Raised A → Bool
is_cast_error_raised (raised (cast_error t)) = true
is_cast_error_raised r = false

-- `w'` is `w` with the same entity and the same ledger.
pub record SameBooks {W : Type 0} (w w' : World W) : Type 0 where
  pub entity : w'.entity ≡ w.entity
  pub ledger : w'.ledger ≡ w.ledger

-- `api_error` lets no PyChromecastError through.
converted-clean :
    {A : Type 0} (name : String) (r : Result Raised A)
    → is_cast_error_raised (converted name r) ≡ false
unfolding converted
converted-clean name (returned a) = refl
converted-clean name (raised (cast_error t)) = refl
converted-clean name (raised (timeout_error t)) = refl
converted-clean name (raised not_implemented) = refl
converted-clean name (raised (home_assistant reason cause)) = refl
converted-clean name (raised (foreign n)) = refl

-- A method that goes on after a result keeps the books if the rest does.
after-SameBooks :
    {W A B : Type 0} (w : World W) (r : Result Raised A) (f : A → Method W B)
    → ((a : A) → SameBooks w (f a w).1)
    → SameBooks w (continue_with f (r, w)).1
after-SameBooks w (returned a) f h = h a
after-SameBooks w (raised e) f h = record { entity = refl; ledger = refl }

-- A call of the device keeps the books.
pub quick_play_app-SameBooks :
    {W : Type 0} (answer : List Command → Command → Option Raised) (name : String)
    (app_data : AppData) (w : World W)
    → SameBooks w (quick_play_app answer name app_data w).1
unfolding quick_play_app api_error get_chromecast perform
quick_play_app-SameBooks answer name app_data w =
    after-SameBooks w (get_chromecast w).0 (λ c. perform answer (quick_play name app_data))
      (λ c. record { entity = refl; ledger = refl })

pub quick_play_app-clean :
    {W : Type 0} (answer : List Command → Command → Option Raised) (name : String)
    (app_data : AppData) (w : World W)
    → is_cast_error_raised (quick_play_app answer name app_data w).0 ≡ false
unfolding quick_play_app api_error
quick_play_app-clean answer name app_data w = converted-clean "_quick_play" _

pub watched-clean :
    (late : Bool) (r : Result Raised (Unit {0}))
    → is_cast_error_raised r ≡ false
    → is_cast_error_raised (watched late r) ≡ false
watched-clean true r h = refl
watched-clean false r h = h
