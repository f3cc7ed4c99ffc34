-- ===== src/Repairs/Unary.antt =====
-- Texts of uuids and times for the tests (custom_components/cast/issues.py): a number is so many letters.
use ha_int_gcast.Base.{ℕ, zero, suc, ◌≡◌, refl, ap, String, some, ◌==◌, nat_eq, if◌then◌else◌}
use ha_int_gcast.Repairs.Manager.{SeenKey, by_uuid, by_device}
use ha_int_gcast.Repairs.Store.{Texts}
use Prim.Native.Char.{Char, char, code}

abbrev letter : ℕ → Char
letter zero = char 100 tt
letter (suc n) = char 117 tt

unfoldable pub letters : ℕ → String
letters zero = String.[]
letters (suc n) = String.◌∷◌ (letter 1) (letters n)

unfoldable pub count_letters : String → ℕ
count_letters String.[] = 0
count_letters (String.◌∷◌ c s) = suc (count_letters s)

pub letters_back : (n : ℕ) → count_letters (letters n) ≡ n
unfolding letters count_letters
letters_back zero = refl
letters_back (suc n) = ap suc (letters_back n)

unfoldable pub key_text : SeenKey → String
key_text (by_uuid u) = String.◌∷◌ (letter 1) (letters u)
key_text (by_device d) = String.◌∷◌ (letter 0) d

unfoldable pub key_from : String → SeenKey
key_from String.[] = by_device ""
key_from (String.◌∷◌ c s) = if code c == 117 then by_uuid (count_letters s) else by_device s

pub key_text_back : (k : SeenKey) → key_from (key_text k) ≡ k
unfolding key_text key_from
key_text_back (by_uuid u) = ap by_uuid (letters_back u)
key_text_back (by_device d) = refl

abbrev pub unary : Texts
unary = record {
  str = letters;
  parse_uuid = λ s. some (count_letters s);
  str_key = key_text;
  parse_key = key_from;
  isoformat = letters;
  parse_datetime = λ s. some (count_letters s);
  uuid_back = λ u. ap some (letters_back u);
  key_back = key_text_back;
  time_back = λ t. ap some (letters_back t);
}
