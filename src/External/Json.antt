-- ===== src/External/Json.antt =====
-- nlohmann::json, which is not part of this repository: the values by their kinds, and parse and
-- dump, by what their documentation promises. An object is listed in the order of its keys.
use Prim.Native.Char.{Char, code}
use Prim.Native.String.{◌++◌}
use fast_dds_spy.Prelude.{ℤ, ℕ, String, Bool, true, false, ◌||◌, ◌==◌, ◌≡◌, if◌then◌else◌, Option}

-- A number is unsigned if its text has no sign, no point and no exponent, and fits 64 bits.
mutual
  pub data Json (Double : Type 0) : Type 0 where
    null : Json Double
    boolean : Bool → Json Double
    number_integer : ℤ → Json Double
    number_unsigned : ℕ → Json Double
    number_float : Double → Json Double
    string : String → Json Double
    array : Items Double → Json Double
    object : Members Double → Json Double

  pub data Items (Double : Type 0) : Type 0 where
    no_item : Items Double
    item : Json Double → Items Double → Items Double

  pub data Members (Double : Type 0) : Type 0 where
    no_member : Members Double
    member : String → Json Double → Members Double → Members Double

abbrev pub is_primitive : {Double : Type 0} → Json Double → Bool
is_primitive (array xs) = false
is_primitive (object ms) = false
is_primitive _ = true

-- Where a reader of a JSON text stands.
pub data Place : Type 0 where
  outside quoted escaped : Place

abbrev pub is_space : Char → Bool
is_space c = (code c == b' ') || (code c == 10)

abbrev pub is_layout : Place → Char → Bool
is_layout outside c = is_space c
is_layout quoted c = false
is_layout escaped c = false

abbrev pub next_place : Place → Char → Place
next_place outside c = if code c == 34 then quoted else outside
next_place quoted c = if code c == 34 then outside else (if code c == 92 then escaped else quoted)
next_place escaped c = quoted

-- A JSON text without the spaces and the line feeds that stand outside of its quoted texts.
unfoldable pub squeeze : Place → String → String
squeeze p String.[] = String.[]
squeeze p (String.◌∷◌ c s) =
    let rest = squeeze (next_place p c) s in if is_layout p c then rest else String.◌∷◌ c rest

-- Where the reader stands after a text.
unfoldable pub place_after : Place → String → Place
place_after p String.[] = p
place_after p (String.◌∷◌ c s) = place_after (next_place p c) s

module _ {Double : Type 0} (dump : Json Double → String) where
  -- The texts of the elements with a comma before each.
  unfoldable pub comma_items : Items Double → String
  comma_items no_item = ""
  comma_items (item x xs) = "," ++ (dump x ++ comma_items xs)

  unfoldable pub comma_members : Members Double → String
  comma_members no_member = ""
  comma_members (member k x ms) = "," ++ (dump (string k) ++ (":" ++ (dump x ++ comma_members ms)))

pub record Jsons : Type 1 where
  pub Double : Type 0
  -- `none` is a parse_error.
  pub parse : String → Option (Json Double)
  pub dump : Json Double → String
  -- Without arguments dump writes the most compact form.
  pub dump-no_item : dump (array no_item) ≡ "[]"
  pub dump-array :
      (x : Json Double) (xs : Items Double)
      → dump (array (item x xs)) ≡ "[" ++ (dump x ++ (comma_items dump xs ++ "]"))
  pub dump-no_member : dump (object no_member) ≡ "{}"
  pub dump-object :
      (k : String) (x : Json Double) (ms : Members Double)
      → dump (object (member k x ms))
        ≡ "{" ++ (dump (string k) ++ (":" ++ (dump x ++ (comma_members dump ms ++ "}"))))
  -- A scalar is written without white space outside of quotes, and closes its quotes.
  pub squeeze-dump : (x : Json Double) → is_primitive x ≡ true → squeeze outside (dump x) ≡ dump x
  pub place_after-dump :
      (x : Json Double) → is_primitive x ≡ true → place_after outside (dump x) ≡ outside

abbrev pub JsonValue : ⦃J : Jsons⦄ → Type 0
JsonValue ⦃J⦄ = Json J.Double
