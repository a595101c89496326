-- ===== src/Tests/Json.antt =====
-- Concrete instances of the JSON and YAML libraries: a number is written in ones, a text in quotes
-- with escapes, and two texts are parsed.
use Prim.Native.Char.{Char, code}
use Prim.Native.String.{◌++◌}
use text.Mathlib.TextLemmas.{nil-append, cons-append}
use fast_dds_spy.Prelude.{
  pos, negsuc, ℕ, zero, suc, String, Bool, true, false, ◌||◌, ◌==◌, ◌≡◌, refl, ap, sym, ◌∙◌, arith,
  if◌then◌else◌, List, [], ◌∷◌, Option, none, some, Bool-cases, inl, inr,
}
use fast_dds_spy.Order.{◌=?◌}
use fast_dds_spy.Order.Texts.{string_order}
use fast_dds_spy.External.Json.{
  Jsons, Json, null, boolean, number_integer, number_unsigned, number_float, string, array, object,
  Items, no_item, item, Members, no_member, member, is_primitive, squeeze, place_after, Place,
  next_place, outside, quoted, comma_items, comma_members,
}
use fast_dds_spy.External.Yaml.{
  Yamls, Node, Scalars, null_node, text_node, sequence, mapping, Nodes, no_node, node, Entries,
  no_entry, entry, block, Style, nodes_then, entries_then, find_entry,
}
use fast_dds_spy.Controller.JsonText.{squeeze-append}

ones : ℕ → String
ones zero = "1"
ones (suc n) = "1" ++ ones n

is_special : ℕ → Bool
is_special c = c == 34 || c == 92

-- With the closing quote.
pub escape : String → String
unfolding is_special
escape String.[] = "\""
escape (String.◌∷◌ c s) =
    let rest = String.◌∷◌ c (escape s) in if is_special (code c) then "\\" ++ rest else rest

unfoldable mutual
  unfolding ones escape

  pub dump : Json ℕ → String
  dump null = "null"
  dump (boolean true) = "true"
  dump (boolean false) = "false"
  dump (number_integer (pos n)) = ones n
  dump (number_integer (negsuc n)) = "-" ++ ones n
  dump (number_unsigned n) = ones n
  dump (number_float n) = ones n
  dump (string s) = "\"" ++ escape s
  dump (array no_item) = "[]"
  dump (array (item x xs)) = "[" ++ (dump x ++ (dump_items xs ++ "]"))
  dump (object no_member) = "{}"
  dump (object (member k x ms)) =
      "{" ++ (("\"" ++ escape k) ++ (":" ++ (dump x ++ (dump_members ms ++ "}"))))

  pub dump_items : Items ℕ → String
  dump_items no_item = ""
  dump_items (item x xs) = "," ++ (dump x ++ dump_items xs)

  pub dump_members : Members ℕ → String
  dump_members no_member = ""
  dump_members (member k x ms) = "," ++ (("\"" ++ escape k) ++ (":" ++ (dump x ++ dump_members ms)))

comma_items-dump : (xs : Items ℕ) → comma_items dump xs ≡ dump_items xs
unfolding comma_items dump
comma_items-dump no_item = refl
comma_items-dump (item x xs) = ap (λ t. "," ++ (dump x ++ t)) (comma_items-dump xs)

comma_members-dump : (ms : Members ℕ) → comma_members dump ms ≡ dump_members ms
unfolding comma_members dump
comma_members-dump no_member = refl
comma_members-dump (member k x ms) =
    ap (λ t. "," ++ (("\"" ++ escape k) ++ (":" ++ (dump x ++ t)))) (comma_members-dump ms)

squeeze-ones : (n : ℕ) → squeeze outside (ones n) ≡ ones n
unfolding squeeze ones place_after
squeeze-ones zero = refl
squeeze-ones (suc n) = squeeze-append outside "1" (ones n) ∙ ap (λ t. "1" ++ t) (squeeze-ones n)

place_after-append :
    (p : Place) (s t : String) → place_after p (s ++ t) ≡ place_after (place_after p s) t
unfolding place_after
place_after-append p String.[] t = ap (place_after p) (nil-append t)
place_after-append p (String.◌∷◌ c s) t =
    ap (place_after p) (cons-append c s t) ∙ place_after-append (next_place p c) s t

place_after-ones : (n : ℕ) → place_after outside (ones n) ≡ outside
unfolding ones place_after
place_after-ones zero = refl
place_after-ones (suc n) = place_after-append outside "1" (ones n) ∙ place_after-ones n

next_place-ordinary : (c : Char) → is_special (code c) ≡ false → next_place quoted c ≡ quoted
unfolding is_special
next_place-ordinary c h = ground arith

squeeze-escape : (s : String) → squeeze quoted (escape s) ≡ escape s
unfolding squeeze escape place_after
squeeze-escape String.[] = refl
squeeze-escape (String.◌∷◌ c s) = elim (Bool-cases (is_special (code c))) [
  | inl e ↦
      rw (e, escape)
        (squeeze-append quoted "\\" (String.◌∷◌ c (escape s))
          ∙ ap (λ t. "\\" ++ String.◌∷◌ c t) (squeeze-escape s))
  | inr e ↦
      rw (e, escape)
        (ap (λ p. String.◌∷◌ c (squeeze p (escape s))) (next_place-ordinary c e)
          ∙ ap (String.◌∷◌ c) (squeeze-escape s))
]

place_after-escape : (s : String) → place_after quoted (escape s) ≡ outside
unfolding place_after escape
place_after-escape String.[] = refl
place_after-escape (String.◌∷◌ c s) = elim (Bool-cases (is_special (code c))) [
  | inl e ↦
      rw (e, escape)
        (place_after-append quoted "\\" (String.◌∷◌ c (escape s)) ∙ place_after-escape s)
  | inr e ↦
      rw (e, escape)
        (ap (λ p. place_after p (escape s)) (next_place-ordinary c e) ∙ place_after-escape s)
]

pub squeeze-dump : (x : Json ℕ) → is_primitive x ≡ true → squeeze outside (dump x) ≡ dump x
unfolding squeeze place_after dump
squeeze-dump null h = refl
squeeze-dump (boolean true) h = refl
squeeze-dump (boolean false) h = refl
squeeze-dump (number_integer (pos n)) h = squeeze-ones n
squeeze-dump (number_integer (negsuc n)) h =
    squeeze-append outside "-" (ones n) ∙ ap (λ t. "-" ++ t) (squeeze-ones n)
squeeze-dump (number_unsigned n) h = squeeze-ones n
squeeze-dump (number_float n) h = squeeze-ones n
squeeze-dump (string s) h =
    squeeze-append outside "\"" (escape s) ∙ ap (λ t. "\"" ++ t) (squeeze-escape s)
squeeze-dump (array xs) h = ground arith
squeeze-dump (object ms) h = ground arith

pub place_after-dump : (x : Json ℕ) → is_primitive x ≡ true → place_after outside (dump x) ≡ outside
unfolding place_after dump
place_after-dump null h = refl
place_after-dump (boolean true) h = refl
place_after-dump (boolean false) h = refl
place_after-dump (number_integer (pos n)) h = place_after-ones n
place_after-dump (number_integer (negsuc n)) h =
    place_after-append outside "-" (ones n) ∙ place_after-ones n
place_after-dump (number_unsigned n) h = place_after-ones n
place_after-dump (number_float n) h = place_after-ones n
place_after-dump (string s) h = place_after-append outside "\"" (escape s) ∙ place_after-escape s
place_after-dump (array xs) h = ground arith
place_after-dump (object ms) h = ground arith

-- [1, "a"]
abbrev pub small_array : Json ℕ
small_array = array (item (number_unsigned 0) (item (string "a") no_item))

-- {"id": 1, "list": [1, "a"]}
abbrev pub small_json : Json ℕ
small_json = object (member "id" (number_unsigned 0) (member "list" small_array no_member))

abbrev pub parse : String → Option (Json ℕ)
parse s = if s =? "{\"id\": 1, \"list\": [1, \"a\"]}" then some small_json else none

pub dump-array :
    (x : Json ℕ) (xs : Items ℕ)
    → dump (array (item x xs)) ≡ "[" ++ (dump x ++ (comma_items dump xs ++ "]"))
unfolding dump
dump-array x xs = ap (λ t. "[" ++ (dump x ++ (t ++ "]"))) (sym (comma_items-dump xs))

pub dump-object :
    (k : String) (x : Json ℕ) (ms : Members ℕ)
    → dump (object (member k x ms))
      ≡ "{" ++ (dump (string k) ++ (":" ++ (dump x ++ (comma_members dump ms ++ "}"))))
unfolding dump
dump-object k x ms =
    ap (λ t. "{" ++ (("\"" ++ escape k) ++ (":" ++ (dump x ++ (t ++ "}")))))
      (sym (comma_members-dump ms))

pub dump-no_item : dump (array no_item) ≡ "[]"
unfolding dump
dump-no_item = refl

pub dump-no_member : dump (object no_member) ≡ "{}"
unfolding dump
dump-no_member = refl

instance abbrev pub number_jsons : Jsons
number_jsons = record {
  Double = ℕ;
  parse = parse;
  dump = dump;
  dump-no_item = dump-no_item;
  dump-array = dump-array;
  dump-no_member = dump-no_member;
  dump-object = dump-object;
  squeeze-dump = squeeze-dump;
  place_after-dump = place_after-dump;
}

pub put : String → Node → Entries → Entries
put k x no_entry = entry k x no_entry
put k x (entry j y es) = if j =? k then entry j x es else entry j y (put k x es)

pub put-new :
    (k : String) (x : Node) (es : Entries)
    → find_entry k es ≡ none
    → put k x es ≡ entries_then es (entry k x no_entry)
unfolding put find_entry entries_then
put-new k x no_entry h = refl
put-new k x (entry j y es) h = ground (arith, put-new k x es)

unfoldable pub push_back : Node → Node → Node
push_back (sequence s xs) x = sequence s (nodes_then xs (node x no_node))
push_back null_node x = sequence block (node x no_node)
push_back n x = n

unfoldable pub assign : Node → String → Node → Node
unfolding put
assign (mapping es) k x = mapping (put k x es)
assign null_node k x = mapping (entry k x no_entry)
assign n k x = n

abbrev pub set_style : Style → Node → Node
set_style s (sequence t xs) = sequence s xs
set_style s n = n

unfoldable pub push_all : {A : Type 0} → (Node → A → Node) → Node → List A → Node
push_all set n [] = n
push_all set n (x ∷ xs) = push_all set (push_back n (set null_node x)) xs

pub push_back-null : (x : Node) → push_back null_node x ≡ sequence block (node x no_node)
unfolding push_back
push_back-null x = refl

pub push_back-sequence :
    (s : Style) (xs : Nodes) (x : Node)
    → push_back (sequence s xs) x ≡ sequence s (nodes_then xs (node x no_node))
unfolding push_back
push_back-sequence s xs x = refl

pub assign-null : (k : String) (x : Node) → assign null_node k x ≡ mapping (entry k x no_entry)
unfolding assign
assign-null k x = refl

pub assign-new :
    (k : String) (x : Node) (es : Entries)
    → find_entry k es ≡ none
    → assign (mapping es) k x ≡ mapping (entries_then es (entry k x no_entry))
unfolding assign
assign-new k x es h = ap mapping (put-new k x es h)

instance abbrev pub number_yamls : Yamls
number_yamls = record {
  push_back = push_back;
  push_back-null = push_back-null;
  push_back-sequence = push_back-sequence;
  set_style = set_style;
  set_style-sequence = λ s t xs. refl;
  assign = assign;
  assign-null = assign-null;
  assign-new = assign-new;
  set_text = λ n s. text_node s;
  set_number = λ n k. text_node "2";
  set_bool = λ n b. text_node (if b then "true" else "false");
  set_vector = push_all;
  set_in_tag = λ set yml tag v. assign yml tag (set null_node v);
  set_in_tag-assign = λ set yml tag v. refl;
  set_text-node = λ yml s. refl;
}

instance abbrev pub number_scalars : Scalars ℕ
number_scalars = record {
  show_bool = λ b. if b then "true" else "false";
  show_integer = λ n. "0";
  show_double = λ x. "0.5";
}
