-- ===== src/Args/Literals.antt =====
-- The value of one argument: the end of `parseArg` and the functions for the widths of literals in
-- lib/attributes/utils/parser.cpp. Clang's literal parsers, its table of identifiers and the widths of
-- the target are parameters.
use occa_transpiler.Base.{
  ℕ, ◌-◌, ◌%◌, ◌^◌, Bool, true, not, ◌||◌, ◌&&◌, List, [], ◌∷◌, if◌then◌else◌, is_nil,
}
use occa_transpiler.Ast.{Bytes}
use occa_transpiler.Args.{
  TokenKind, raw_identifier, minus, plus, numeric_constant, kw_true, kw_false, char_constant,
  wide_char_constant, utf8_char_constant, utf16_char_constant, utf32_char_constant, string_literal,
  wide_string_literal, utf8_string_literal, utf16_string_literal, utf32_string_literal, kind_eq,
  Token, is, slice, ApsInt, FloatFormat, float_format, float128_format, double_format, narrow, wide,
  utf16, utf32, ParamValue, no_value, float_value, integer, text_value, Param, param,
}

-- `NumericLiteralParser`, what the code reads of it; `value` is the integer or the float read.
pub record NumericLiteral : Type 0 where
  pub had_error : Bool
  pub is_floating : Bool
  pub is_integer : Bool
  pub is_unsigned : Bool
  pub is_bit_int : Bool
  pub is_long : Bool
  pub is_long_long : Bool
  pub is_size_t : Bool
  pub is_half : Bool
  pub is_float : Bool
  pub is_float16 : Bool
  pub is_float128 : Bool
  pub value : ℕ

-- `CharLiteralParser` and `StringLiteralParser`
pub record CharLiteral : Type 0 where
  pub had_error : Bool
  pub is_multi_char : Bool
  pub is_wide : Bool
  pub is_utf8 : Bool
  pub is_utf16 : Bool
  pub is_utf32 : Bool
  pub value : ℕ

pub record StringLiteral : Type 0 where
  pub had_error : Bool
  pub is_ordinary : Bool
  pub is_utf8 : Bool
  pub is_pascal : Bool
  pub is_wide : Bool
  pub is_utf16 : Bool
  pub is_utf32 : Bool
  pub value : Bytes

pub record Lexing : Type 0 where
  pub numeric : Bytes → NumericLiteral
  pub character : Bytes → TokenKind → CharLiteral
  pub text : List Token → StringLiteral
  pub look_up : Bytes → TokenKind
  pub int_width : ℕ
  pub wchar_width : ℕ
  pub char16_width : ℕ
  pub char32_width : ℕ
  pub char_width : ℕ
  pub long_width : ℕ
  pub long_long_width : ℕ
  pub max_bit_int_width : ℕ
  pub wchar_signed : Bool
  pub cplusplus : Bool
  pub char8 : Bool
  pub char_is_signed : Bool

module _ (c : Lexing) where
  -- `getIntegerWidth` and `getFloatFormat`
  abbrev pub char_width_of : CharLiteral → ℕ
  char_width_of l =
      if l.is_multi_char
      then c.int_width
      else if l.is_wide
      then c.wchar_width
      else if l.is_utf16
      then c.char16_width
      else if l.is_utf32
      then c.char32_width
      else c.char_width

  abbrev pub integer_width : NumericLiteral → ℕ
  integer_width l =
      if l.is_bit_int
      then c.max_bit_int_width
      else if l.is_long
      then c.long_width
      else if l.is_long_long || l.is_size_t
      then c.long_long_width
      else c.int_width

  abbrev pub float_format_of : NumericLiteral → FloatFormat
  float_format_of l =
      if l.is_half || (l.is_float || l.is_float16)
      then float_format
      else if l.is_float128
      then float128_format
      else double_format

  -- `APSInt::negate`
  abbrev pub negate : ApsInt → ApsInt
  negate v = record v { bits = (2 ^ v.width - v.bits) % 2 ^ v.width }

  abbrev pub negate_if : Bool → ApsInt → ApsInt
  negate_if b v = if b then negate v else v

  abbrev pub numeric_value : Bool → NumericLiteral → ParamValue
  numeric_value negative l =
      if l.had_error
      then no_value
      else if l.is_floating
      then float_value (float_format_of l) negative l.value
      else if l.is_integer
      then integer (
          negate_if negative (record {
            width = integer_width l;
            is_unsigned = l.is_unsigned;
            bits = l.value % 2 ^ integer_width l;
          }))
      else no_value

  -- `val.setIsUnsigned(…)`
  abbrev pub char_is_unsigned : CharLiteral → Bool
  char_is_unsigned l =
      if l.is_wide
      then not c.wchar_signed
      else if l.is_utf16 || l.is_utf32
      then true
      else if l.is_utf8
      then (if c.cplusplus then c.char8 || not c.char_is_signed else true)
      else not c.char_is_signed

  abbrev pub char_value : CharLiteral → ParamValue
  char_value l =
      if l.had_error
      then no_value
      else integer (record {
        width = char_width_of l;
        is_unsigned = char_is_unsigned l;
        bits = l.value % 2 ^ char_width_of l;
      })

  abbrev pub string_value : StringLiteral → ParamValue
  string_value l =
      if l.had_error
      then no_value
      else if l.is_ordinary || (l.is_utf8 || l.is_pascal)
      then text_value narrow l.value
      else if l.is_wide
      then text_value wide l.value
      else if l.is_utf16
      then text_value utf16 l.value
      else if l.is_utf32
      then text_value utf32 l.value
      else no_value

  abbrev pub bool_value : Bool → ParamValue
  bool_value b = integer (record { width = 1; is_unsigned = true; bits = if b then 1 else 0 })

  -- The `switch`, on the kind, the first token of the literal and whether a `-` stands before it; `all` are all tokens.
  abbrev pub value_of : TokenKind → Token → Bytes → Bool → List Token → ParamValue
  value_of k t literal negative all = elim k [
    | numeric_constant ↦ numeric_value negative (c.numeric literal)
    | char_constant ↦ char_value (c.character literal t.kind)
    | wide_char_constant ↦ char_value (c.character literal t.kind)
    | utf8_char_constant ↦ char_value (c.character literal t.kind)
    | utf16_char_constant ↦ char_value (c.character literal t.kind)
    | utf32_char_constant ↦ char_value (c.character literal t.kind)
    | string_literal ↦ string_value (c.text all)
    | wide_string_literal ↦ string_value (c.text all)
    | utf8_string_literal ↦ string_value (c.text all)
    | utf16_string_literal ↦ string_value (c.text all)
    | utf32_string_literal ↦ string_value (c.text all)
    | kw_true ↦ bool_value (is kw_true t)
    | kw_false ↦ bool_value (is kw_true t)
    | _ ↦ no_value
  ]

  -- `PP.LookUpIdentifierInfo(t)`, which gives an identifier that is a keyword its kind.
  abbrev pub looked_up : Token → Token
  looked_up t =
      if is raw_identifier t && not (is_nil t.spelling)
      then record t { kind = c.look_up t.spelling }
      else t

  abbrev pub kind_after : TokenKind → Token → Token → TokenKind
  kind_after k before after =
      if is raw_identifier before && not (is_nil before.spelling) then after.kind else k

  abbrev pub last_end : Token → List Token → ℕ
  last_end t [] = t.end
  last_end t (u ∷ us) = last_end u us

  -- An argument of the tokens `t ∷ us`, that is no expression, with the kind that the loop has found.
  abbrev pub literal_value : Bytes → TokenKind → Token → List Token → ParamValue
  literal_value payload k t [] =
      value_of (kind_after k t (looked_up t)) (looked_up t) (slice payload t.start t.end)
        (is minus t) (t ∷ [])
  literal_value payload k t (u ∷ us) =
      let kind = kind_after k t (looked_up t) in
      if kind_eq kind numeric_constant && (is minus (looked_up t) || is plus (looked_up t))
      then value_of u.kind u (slice payload u.start (last_end u us)) (is minus t) (t ∷ u ∷ us)
      else value_of kind (looked_up t) (slice payload t.start (last_end u us)) (is minus t)
          (t ∷ u ∷ us)

  -- The parameter of the tokens of an argument.
  unfoldable pub make_param : Bytes → Bool → TokenKind → List Token → Param
  make_param payload is_expr k [] = param [] no_value
  make_param payload is_expr k (t ∷ us) =
      param (slice payload t.start (last_end t us))
        (if is_expr then no_value else literal_value payload k t us)
