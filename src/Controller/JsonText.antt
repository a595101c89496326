-- ===== src/Controller/JsonText.antt =====
-- The layout of print_json_arrays_inline changes nothing but white space.
use Prim.Native.String.{◌++◌}
use text.Mathlib.TextLemmas.{append_assoc, append-nil, nil-append, cons-append}
use fast_dds_spy.Prelude.{
  ℕ, zero, suc, ◌+◌, String, Bool, true, false, ◌≡◌, refl, ap, sym, ◌∙◌, ◌&&◌, Bool-cases, inl, inr,
  arith,
}
use fast_dds_spy.External.Json.{
  Jsons, JsonValue, null, boolean, number_integer, number_unsigned, number_float, string, array,
  object, Items, no_item, item, Members, no_member, member, is_primitive, squeeze, place_after,
  Place, next_place, is_layout, outside, comma_items, comma_members,
}
use fast_dds_spy.Controller.JsonLayout.{
  spaces, all_primitives, more_primitives, print_primitives, print_json_arrays_inline,
  print_members, more_members, print_items, more_items,
}

pub squeeze-append :
    (p : Place) (s t : String) → squeeze p (s ++ t) ≡ squeeze p s ++ squeeze (place_after p s) t
unfolding squeeze place_after
squeeze-append p String.[] t = simp (nil-append)
squeeze-append p (String.◌∷◌ c s) t = elim (Bool-cases (is_layout p c)) [
  | inl drop ↦ simp (cons-append, drop, squeeze-append (next_place p c) s t)
  | inr keep ↦ simp (cons-append, keep, squeeze-append (next_place p c) s t)
]

-- A text that ends outside of quotes is squeezed on its own.
squeeze-settled :
    (s t : String)
    → place_after outside s ≡ outside
    → squeeze outside (s ++ t) ≡ squeeze outside s ++ squeeze outside t
squeeze-settled s t h = squeeze-append outside s t ∙ ap (λ p. squeeze outside s ++ squeeze p t) h

squeeze-spaces : (n : ℕ) (rest : String) → squeeze outside (spaces n ++ rest) ≡ squeeze outside rest
unfolding squeeze spaces place_after
squeeze-spaces zero rest = simp (nil-append)
squeeze-spaces (suc n) rest =
    ap (squeeze outside) (append_assoc " " (spaces n) rest)
    ∙ squeeze-settled " " (spaces n ++ rest) refl
    ∙ simp (nil-append, squeeze-spaces n rest)

squeeze-comma_line : (rest : String) → squeeze outside (",\n" ++ rest) ≡ "," ++ squeeze outside rest
unfolding squeeze place_after
squeeze-comma_line rest = squeeze-settled ",\n" rest refl

squeeze-comma_space : (rest : String) → squeeze outside (", " ++ rest) ≡ "," ++ squeeze outside rest
unfolding squeeze place_after
squeeze-comma_space rest = squeeze-settled ", " rest refl

squeeze-comma : (rest : String) → squeeze outside ("," ++ rest) ≡ "," ++ squeeze outside rest
unfolding squeeze place_after
squeeze-comma rest = squeeze-settled "," rest refl

squeeze-open_line : (rest : String) → squeeze outside ("{\n" ++ rest) ≡ "{" ++ squeeze outside rest
unfolding squeeze place_after
squeeze-open_line rest = squeeze-settled "{\n" rest refl

squeeze-line : (rest : String) → squeeze outside ("\n" ++ rest) ≡ squeeze outside rest
unfolding squeeze place_after
squeeze-line rest = squeeze-settled "\n" rest refl ∙ nil-append _

squeeze-close : (rest : String) → squeeze outside ("}" ++ rest) ≡ "}" ++ squeeze outside rest
unfolding squeeze place_after
squeeze-close rest = squeeze-settled "}" rest refl

squeeze-list : (rest : String) → squeeze outside ("[" ++ rest) ≡ "[" ++ squeeze outside rest
unfolding squeeze place_after
squeeze-list rest = squeeze-settled "[" rest refl

squeeze-list_line : (rest : String) → squeeze outside ("[\n" ++ rest) ≡ "[" ++ squeeze outside rest
unfolding squeeze place_after
squeeze-list_line rest = squeeze-settled "[\n" rest refl

squeeze-list_close : (rest : String) → squeeze outside ("]" ++ rest) ≡ "]" ++ squeeze outside rest
unfolding squeeze place_after
squeeze-list_close rest = squeeze-settled "]" rest refl

squeeze-colon : (rest : String) → squeeze outside (": " ++ rest) ≡ ":" ++ squeeze outside rest
unfolding squeeze place_after
squeeze-colon rest = squeeze-settled ": " rest refl

ruleset squeeze_layout = (
  append_assoc, nil-append, squeeze-spaces, squeeze-comma_line, squeeze-comma_space, squeeze-comma,
  squeeze-open_line, squeeze-line, squeeze-close, squeeze-list, squeeze-list_line,
  squeeze-list_close, squeeze-colon,
)

both : {a b : Bool} → (a && b) ≡ true → (a ≡ true) × (b ≡ true)
both {a = true} h = (refl, h)
both {a = false} h = ground arith

append_braces : (rest : String) → "{" ++ ("}" ++ rest) ≡ "{}" ++ rest
append_braces rest = sym (append_assoc "{" "}" rest)

module _ ⦃J : Jsons⦄ where
  squeeze-scalar :
      (x : JsonValue)
      → is_primitive x ≡ true
      → (rest : String) → squeeze outside (J.dump x ++ rest) ≡ J.dump x ++ squeeze outside rest
  squeeze-scalar x h rest =
      squeeze-settled (J.dump x) rest (J.place_after-dump x h)
      ∙ ap (λ s. s ++ squeeze outside rest) (J.squeeze-dump x h)

  squeeze-key :
      (k : String) (rest : String)
      → squeeze outside (J.dump (string k) ++ rest) ≡ J.dump (string k) ++ squeeze outside rest
  squeeze-key k rest = squeeze-scalar (string k) refl rest

  squeeze-more_primitives :
      (xs : Items J.Double)
      → all_primitives xs ≡ true
      → (rest : String)
      → squeeze outside (more_primitives xs ++ rest) ≡ comma_items J.dump xs ++ squeeze outside rest
  unfolding more_primitives all_primitives comma_items
  squeeze-more_primitives no_item h rest = simp (nil-append)
  squeeze-more_primitives (item x xs) h rest =
      let (hx, hxs) = both h in
      simp (squeeze_layout, squeeze-scalar x hx, squeeze-more_primitives xs hxs)

  squeeze-print_primitives :
      (xs : Items J.Double)
      → all_primitives xs ≡ true
      → (rest : String)
      → squeeze outside (print_primitives xs ++ rest) ≡ J.dump (array xs) ++ squeeze outside rest
  unfolding print_primitives all_primitives squeeze place_after
  squeeze-print_primitives no_item h rest = rw J.dump-no_item (squeeze-settled "[]" rest refl)
  squeeze-print_primitives (item x xs) h rest =
      let (hx, hxs) = both h in
      simp (squeeze_layout, squeeze-scalar x hx, squeeze-more_primitives xs hxs, J.dump-array x xs)

  mutual
    unfolding print_json_arrays_inline print_members more_members print_items more_items comma_items
        comma_members

    squeeze-print :
        (j : JsonValue) (n step : ℕ) (rest : String)
        → squeeze outside (print_json_arrays_inline j n step ++ rest)
          ≡ J.dump j ++ squeeze outside rest
    squeeze-print (object no_member) n step rest =
        simp (squeeze_layout, J.dump-no_member, append_braces (squeeze outside rest))
    squeeze-print (object (member k x ms)) n step rest = simp (
      squeeze_layout,
      squeeze-key k,
      squeeze-print x (n + step) step,
      squeeze-more_members ms n step,
      J.dump-object k x ms,
    )
    squeeze-print (array no_item) n step rest = squeeze-print_primitives no_item refl rest
    squeeze-print (array (item x xs)) n step rest = elim (Bool-cases (all_primitives (item x xs))) [
      | inl e ↦ rw (e, print_json_arrays_inline) (squeeze-print_primitives (item x xs) e rest)
      | inr e ↦
          rw (e, print_json_arrays_inline)
            (simp (
              squeeze_layout,
              squeeze-print x (n + step) step,
              squeeze-more_items xs n step,
              J.dump-array x xs,
            ))
    ]
    squeeze-print null n step rest = squeeze-scalar null refl rest
    squeeze-print (boolean b) n step rest = squeeze-scalar (boolean b) refl rest
    squeeze-print (number_integer i) n step rest = squeeze-scalar (number_integer i) refl rest
    squeeze-print (number_unsigned i) n step rest = squeeze-scalar (number_unsigned i) refl rest
    squeeze-print (number_float x) n step rest = squeeze-scalar (number_float x) refl rest
    squeeze-print (string s) n step rest = squeeze-scalar (string s) refl rest

    squeeze-more_members :
        (ms : Members J.Double) (n step : ℕ) (rest : String)
        → squeeze outside (more_members ms n step ++ rest)
          ≡ comma_members J.dump ms ++ squeeze outside rest
    squeeze-more_members no_member n step rest = simp (nil-append)
    squeeze-more_members (member k x ms) n step rest = simp (
      squeeze_layout,
      squeeze-key k,
      squeeze-print x (n + step) step,
      squeeze-more_members ms n step rest,
    )

    squeeze-more_items :
        (xs : Items J.Double) (n step : ℕ) (rest : String)
        → squeeze outside (more_items xs n step ++ rest)
          ≡ comma_items J.dump xs ++ squeeze outside rest
    squeeze-more_items no_item n step rest = simp (nil-append)
    squeeze-more_items (item x xs) n step rest =
        simp (squeeze_layout, squeeze-print x (n + step) step, squeeze-more_items xs n step rest)

  -- Without the white space outside of quoted texts, the text that is printed for a JSON value, at any
  -- indentation, is the compact text that nlohmann's dump writes for it.
  pub print_json_arrays_inline-squeeze :
      (j : JsonValue) (indent step : ℕ)
      → squeeze outside (print_json_arrays_inline j indent step) ≡ J.dump j
  unfolding squeeze
  print_json_arrays_inline-squeeze j indent step =
      ap (squeeze outside) (sym (append-nil (print_json_arrays_inline j indent step)))
      ∙ squeeze-print j indent step ""
      ∙ append-nil _
