-- ===== src/Tests/Arguments.antt =====
-- The arguments of an attribute.
use occa_transpiler.Base.{true, false, List, [], ◌∷◌, ◌≡◌, ◌≢◌, refl}
use occa_transpiler.Ast.{Bytes}
use occa_transpiler.Result.{ok, err, no_fuel}
use occa_transpiler.Text.Literal.{codes}
use occa_transpiler.Args.{
  TokenKind, comma, l_paren, r_paren, raw_identifier, numeric_constant, Token, parsed, no_kwargs,
}
use occa_transpiler.Args.Literals.{Lexing, NumericLiteral, CharLiteral, StringLiteral}
use occa_transpiler.Args.Parse.{parse_okl_attr}
use occa_transpiler.Args.Parse.RoundTrip.{Argument, written, params_of, parse-written}
use occa_transpiler.Args.Parse.Returns.{parse_okl_attr_returns}

-- A lexer that reads every number as 7, and nothing else.
abbrev seven : Bytes → NumericLiteral
seven s = record {
  had_error = false;
  is_floating = false;
  is_integer = true;
  is_unsigned = false;
  is_bit_int = false;
  is_long = false;
  is_long_long = false;
  is_size_t = false;
  is_half = false;
  is_float = false;
  is_float16 = false;
  is_float128 = false;
  value = 7;
}

abbrev no_character : Bytes → TokenKind → CharLiteral
no_character s k = record {
  had_error = true;
  is_multi_char = false;
  is_wide = false;
  is_utf8 = false;
  is_utf16 = false;
  is_utf32 = false;
  value = 0;
}

abbrev no_text : List Token → StringLiteral
no_text ts = record {
  had_error = true;
  is_ordinary = false;
  is_utf8 = false;
  is_pascal = false;
  is_wide = false;
  is_utf16 = false;
  is_utf32 = false;
  value = [];
}

abbrev lexing : Lexing
lexing = record {
  numeric = seven;
  character = no_character;
  text = no_text;
  look_up = λ s. raw_identifier;
  int_width = 32;
  wchar_width = 32;
  char16_width = 16;
  char32_width = 32;
  char_width = 8;
  long_width = 64;
  long_long_width = 64;
  max_bit_int_width = 128;
  wchar_signed = true;
  cplusplus = true;
  char8 = true;
  char_is_signed = true;
}

-- `(7, a)`
abbrev payload : Bytes
payload = codes "(7, a)"

abbrev seven_arg : Argument
seven_arg = (record { kind = numeric_constant; spelling = codes "7"; start = 1; end = 2 }, [])

abbrev name_arg : Argument
name_arg = (record { kind = raw_identifier; spelling = codes "a"; start = 4; end = 5 }, [])

abbrev start_token : Token
start_token = record { kind = l_paren; spelling = codes "("; start = 0; end = 1 }

abbrev comma_token : Token
comma_token = record { kind = comma; spelling = codes ","; start = 2; end = 3 }

abbrev close_token : Token
close_token = record { kind = r_paren; spelling = codes ")"; start = 5; end = 6 }

abbrev tokens : List Token
tokens = start_token ∷ written seven_arg ((comma_token, name_arg) ∷ []) close_token []

parse-written_example :
    parse_okl_attr lexing payload (codes "okl_tile") tokens
    ≡ ok (
        parsed
          (codes "okl_tile")
          (params_of lexing payload seven_arg ((comma_token, name_arg) ∷ []))
          no_kwargs)
parse-written_example =
    parse-written lexing payload (codes "okl_tile") start_token close_token seven_arg
      ((comma_token, name_arg) ∷ []) [] refl refl (refl, refl) ((refl, (refl, refl)), tt)

parse_okl_attr_returns_example :
    parse_okl_attr lexing payload (codes "okl_tile") tokens ≢ err no_fuel
parse_okl_attr_returns_example = parse_okl_attr_returns lexing payload (codes "okl_tile") tokens
