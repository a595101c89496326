-- ===== src/Controller/JsonLayout.antt =====
-- Controller.cpp, print_json_arrays_inline and format_json_arrays_inline: the text of a JSON value
-- with one member of an object on each line and the arrays of scalars on one line. What the stream
-- receives is the text.
use Prim.Native.String.{◌++◌}
use fast_dds_spy.Prelude.{
  ℕ, zero, suc, ◌+◌, String, Bool, true, ◌&&◌, if◌then◌else◌, Option, none, some,
}
use fast_dds_spy.External.Json.{
  Jsons, JsonValue, null, boolean, number_integer, number_unsigned, number_float, string, array,
  object, Items, no_item, item, Members, no_member, member, is_primitive,
}

-- std::string(n, ' ')
unfoldable pub spaces : ℕ → String
spaces zero = ""
spaces (suc n) = " " ++ spaces n

module _ ⦃J : Jsons⦄ where
  unfoldable pub all_primitives : Items J.Double → Bool
  all_primitives no_item = true
  all_primitives (item x xs) = is_primitive x && all_primitives xs

  unfoldable pub more_primitives : Items J.Double → String
  more_primitives no_item = ""
  more_primitives (item x xs) = ", " ++ (J.dump x ++ more_primitives xs)

  unfoldable pub print_primitives : Items J.Double → String
  unfolding more_primitives
  print_primitives no_item = "[" ++ "]"
  print_primitives (item x xs) = "[" ++ (J.dump x ++ (more_primitives xs ++ "]"))

  unfoldable mutual
    unfolding all_primitives print_primitives spaces

    pub print_json_arrays_inline : JsonValue → ℕ → ℕ → String
    print_json_arrays_inline (object ms) indent step =
        "{\n" ++ (print_members ms indent step ++ ("\n" ++ (spaces indent ++ "}")))
    print_json_arrays_inline (array xs) indent step =
        let pretty = print_items xs indent step in
        if all_primitives xs
        then print_primitives xs
        else "[\n" ++ (pretty ++ ("\n" ++ (spaces indent ++ "]")))
    print_json_arrays_inline null indent step = J.dump null
    print_json_arrays_inline (boolean b) indent step = J.dump (boolean b)
    print_json_arrays_inline (number_integer n) indent step = J.dump (number_integer n)
    print_json_arrays_inline (number_unsigned n) indent step = J.dump (number_unsigned n)
    print_json_arrays_inline (number_float x) indent step = J.dump (number_float x)
    print_json_arrays_inline (string s) indent step = J.dump (string s)

    pub print_members : Members J.Double → ℕ → ℕ → String
    print_members no_member indent step = ""
    print_members (member k x ms) indent step =
        spaces (indent + step)
        ++ (J.dump (string k)
            ++ (": "
                ++ (print_json_arrays_inline x (indent + step) step
                    ++ more_members ms indent step)))

    pub more_members : Members J.Double → ℕ → ℕ → String
    more_members no_member indent step = ""
    more_members (member k x ms) indent step =
        ",\n"
        ++ (spaces (indent + step)
            ++ (J.dump (string k)
                ++ (": "
                    ++ (print_json_arrays_inline x (indent + step) step
                        ++ more_members ms indent step))))

    pub print_items : Items J.Double → ℕ → ℕ → String
    print_items no_item indent step = ""
    print_items (item x xs) indent step =
        spaces (indent + step)
        ++ (print_json_arrays_inline x (indent + step) step ++ more_items xs indent step)

    pub more_items : Items J.Double → ℕ → ℕ → String
    more_items no_item indent step = ""
    more_items (item x xs) indent step =
        ",\n"
        ++ (spaces (indent + step)
            ++ (print_json_arrays_inline x (indent + step) step ++ more_items xs indent step))

  -- `none` is the exception of a text that is not JSON.
  unfoldable pub format_json_arrays_inline : String → ℕ → Option String
  unfolding print_json_arrays_inline
  format_json_arrays_inline json_str indent_step = elim (J.parse json_str) [
    | none ↦ none
    | some j ↦ some (print_json_arrays_inline j 0 indent_step)
  ]
