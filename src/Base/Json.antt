-- ===== src/Base/Json.antt =====
-- The values that the program hands to `json.dumps`, and the texts that it gets back.
use Prim.Native.Nat.{ℕ, zero, suc, ◌+◌, ◌/◌, ◌%◌}
use mathlib.Core.Path.{◌≡◌, refl}
use mathlib.Core.Bool.{Bool, true, false}
use mathlib.Core.List.{[], ◌∷◌, ◌++◌}
use enterprise_support_agent.Base.Tests.{ltb, ◌==◌, if◌then◌else◌}
use enterprise_support_agent.Base.Text.{Text, lit}

mutual
  pub data Json : Type 0 where
    null : Json
    bool : Bool → Json
    int : ℕ → Json
    str : Text → Json
    arr : Items → Json
    obj : Members → Json

  pub data Items : Type 0 where
    nil : Items
    cons : Json → Items → Items

  pub data Members : Type 0 where
    end : Members
    member : Text → Json → Members → Members

decimal_digits : ℕ → ℕ → Text → Text
decimal_digits zero n out = out
decimal_digits (suc fuel) n out =
    let rest = decimal_digits fuel (n / 10) ((48 + n % 10) ∷ out) in if n == 0 then out else rest

-- `str(n)` for a natural number; a number below the fuel has fewer digits.
unfoldable pub decimal : ℕ → Text
unfolding decimal_digits
decimal n = if n == 0 then lit "0" else decimal_digits n n []

hex_digit : ℕ → ℕ
hex_digit n = if ltb n 10 then 48 + n else 87 + n

-- One character of a JSON string, with `ensure_ascii=False`.
unfoldable pub escape_char : ℕ → Text
unfolding hex_digit
escape_char c =
    if c == 34
    then lit "\\\""
    else if c == 92
    then lit "\\\\"
    else if c == 10
    then lit "\\n"
    else if c == 13
    then lit "\\r"
    else if c == 9
    then lit "\\t"
    else if c == 12
    then lit "\\f"
    else if c == 8
    then lit "\\b"
    else if ltb c 32
    then lit "\\u00" ++ hex_digit (c / 16) ∷ hex_digit (c % 16) ∷ []
    else c ∷ []

unfoldable pub escape : Text → Text
escape [] = []
escape (c ∷ s) = escape_char c ++ escape s

unfoldable pub quoted : Text → Text
unfolding escape escape_char
quoted s = 34 ∷ (escape s ++ 34 ∷ [])

abbrev bool_text : Bool → Text
bool_text true = lit "true"
bool_text false = lit "false"

-- `json.dumps(value, ensure_ascii=False, separators=(",", ":"))`
unfoldable mutual
  unfolding quoted decimal

  pub dumps : Json → Text
  dumps null = lit "null"
  dumps (bool b) = bool_text b
  dumps (int n) = decimal n
  dumps (str s) = quoted s
  dumps (arr nil) = lit "[]"
  dumps (arr (cons x xs)) = 91 ∷ (dumps x ++ dumps_items xs)
  dumps (obj end) = lit "{}"
  dumps (obj (member k x xs)) = 123 ∷ (quoted k ++ 58 ∷ (dumps x ++ dumps_members xs))

  pub dumps_items : Items → Text
  dumps_items nil = 93 ∷ []
  dumps_items (cons x xs) = 44 ∷ (dumps x ++ dumps_items xs)

  pub dumps_members : Members → Text
  dumps_members end = 125 ∷ []
  dumps_members (member k x xs) = 44 ∷ (quoted k ++ 58 ∷ (dumps x ++ dumps_members xs))

-- The line break before an entry at nesting depth `n`, two spaces for each level.
unfoldable pub line_break : ℕ → Text
line_break zero = 10 ∷ []
line_break (suc n) = line_break n ++ 32 ∷ 32 ∷ []

-- `json.dumps(value, ensure_ascii=False, indent=2)` at nesting depth `n`.
unfoldable mutual
  unfolding quoted decimal line_break

  pub dumps_indent : Json → ℕ → Text
  dumps_indent null n = lit "null"
  dumps_indent (bool b) n = bool_text b
  dumps_indent (int m) n = decimal m
  dumps_indent (str s) n = quoted s
  dumps_indent (arr nil) n = lit "[]"
  dumps_indent (arr (cons x xs)) n =
      91 ∷ (line_break (suc n) ++ (dumps_indent x (suc n) ++ indent_items xs n))
  dumps_indent (obj end) n = lit "{}"
  dumps_indent (obj (member k x xs)) n =
      123
      ∷ (line_break (suc n)
          ++ (quoted k ++ (lit ": " ++ (dumps_indent x (suc n) ++ indent_members xs n))))

  pub indent_items : Items → ℕ → Text
  indent_items nil n = line_break n ++ 93 ∷ []
  indent_items (cons x xs) n =
      44 ∷ (line_break (suc n) ++ (dumps_indent x (suc n) ++ indent_items xs n))

  pub indent_members : Members → ℕ → Text
  indent_members end n = line_break n ++ 125 ∷ []
  indent_members (member k x xs) n =
      44
      ∷ (line_break (suc n)
          ++ (quoted k ++ (lit ": " ++ (dumps_indent x (suc n) ++ indent_members xs n))))

sample : Json
sample = obj (member (lit "a") (arr (cons (int 120) (cons (str (lit "x\n中")) nil))) end)

dumps-sample : dumps sample ≡ lit "{\"a\":[120,\"x\\n中\"]}"
unfolding sample dumps
dumps-sample = refl

dumps_indent-sample : dumps_indent sample 0 ≡ lit "{\n  \"a\": [\n    120,\n    \"x\\n中\"\n  ]\n}"
unfolding sample dumps_indent
dumps_indent-sample = refl
