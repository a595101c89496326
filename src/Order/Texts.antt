-- ===== src/Order/Texts.antt =====
-- operator< and operator== of std::string, by the texts' characters, and the order of the numbers.
use Prim.Native.String.compare
use Prim.Native.String.{compare}
use text.Mathlib.Text.{is_lt, ◌==◌ as str_eq}
use text.Mathlib.TextPositions.{compare_refl}
use fast_dds_spy.Prelude.{ℕ, String, true, false, ◌≡◌, ap, arith, ltb, ◌==◌, ==_iff, eq_iff, Bool}
use fast_dds_spy.Order.{Order}

abbrev pub str_lt : String → String → Bool
str_lt s t = is_lt (compare s t)

pub str_lt_irrefl : (s : String) → str_lt s s ≡ false
str_lt_irrefl s = ap is_lt (compare_refl s)

pub str_lt_trans : (s t u : String) → str_lt s t ≡ true → str_lt t u ≡ true → str_lt s u ≡ true
str_lt_trans String.[] String.[] u h k = ground (arith, compare.nil-nil)
str_lt_trans String.[] (String.◌∷◌ d t) String.[] h k = ground (arith, compare.cons-nil d t)
str_lt_trans String.[] (String.◌∷◌ d t) (String.◌∷◌ e u) h k = ground (arith, compare.nil-cons e u)
str_lt_trans (String.◌∷◌ c s) String.[] u h k = ground (arith, compare.cons-nil c s)
str_lt_trans (String.◌∷◌ c s) (String.◌∷◌ d t) String.[] h k = ground (arith, compare.cons-nil d t)
str_lt_trans (String.◌∷◌ c s) (String.◌∷◌ d t) (String.◌∷◌ e u) h k = ground (
  arith,
  compare.cons-cons c d s t,
  compare.cons-cons d e t u,
  compare.cons-cons c e s u,
  str_lt_trans s t u,
)

pub str_lt_total : (s t : String) → str_eq s t ≡ false → str_lt s t ≡ false → str_lt t s ≡ true
str_lt_total String.[] String.[] h k = ground (arith, compare.nil-nil)
str_lt_total String.[] (String.◌∷◌ d t) h k = ground (arith, compare.nil-cons d t)
str_lt_total (String.◌∷◌ c s) String.[] h k = ground (arith, compare.nil-cons c s)
str_lt_total (String.◌∷◌ c s) (String.◌∷◌ d t) h k =
    ground (arith, compare.cons-cons c d s t, compare.cons-cons d c t s, str_lt_total s t)

instance abbrev pub string_order : Order String
string_order = record {
  eq = str_eq;
  eq_iff = eq_iff;
  lt = str_lt;
  lt_irrefl = str_lt_irrefl;
  lt_trans = str_lt_trans;
  lt_total = str_lt_total;
}

pub nat_lt_irrefl : (a : ℕ) → ltb a a ≡ false
nat_lt_irrefl a = ground arith

pub nat_lt_trans : (a b c : ℕ) → ltb a b ≡ true → ltb b c ≡ true → ltb a c ≡ true
nat_lt_trans a b c h k = ground arith

pub nat_lt_total : (a b : ℕ) → (a == b) ≡ false → ltb a b ≡ false → ltb b a ≡ true
nat_lt_total a b h k = ground arith

instance abbrev pub nat_order : Order ℕ
nat_order = record {
  eq = ◌==◌;
  eq_iff = ==_iff;
  lt = ltb;
  lt_irrefl = nat_lt_irrefl;
  lt_trans = nat_lt_trans;
  lt_total = nat_lt_total;
}
