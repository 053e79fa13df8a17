-- ===== src/Args.antt =====
-- lib/attributes/utils/parser.h and the data of parser.cpp: the tokens of the text of an attribute, as
-- Clang's lexer gives them, and the parameters that are parsed from them. `std::any` is one of the kinds of
-- values that the parser stores, or none. LLVM's `APSInt` is its width, its sign flag and its bits.
pub mod Literals
pub mod Parse
use occa_transpiler.Base.{
  ℕ, zero, suc, ◌+◌, ◌-◌, ltb, Bool, true, false, not, ◌||◌, ◌&&◌, List, [], ◌∷◌, ◌==◌,
  if◌then◌else◌, Option, none, some,
}
use occa_transpiler.Ast.{Bytes}
use occa_transpiler.ForStmt.{bytes_eq}
use occa_transpiler.Text.{drop}

-- `tok::TokenKind`, as far as the parser tells kinds apart.
pub data TokenKind : Type 0 where
  unknown at raw_identifier comma equal minus plus : TokenKind
  l_paren r_paren l_square r_square l_brace r_brace : TokenKind
  numeric_constant kw_true kw_false : TokenKind
  char_constant wide_char_constant utf8_char_constant : TokenKind
  utf16_char_constant utf32_char_constant : TokenKind
  string_literal wide_string_literal utf8_string_literal : TokenKind
  utf16_string_literal utf32_string_literal : TokenKind
  other_kind : ℕ → TokenKind

-- The number of a kind, for `==`.
abbrev kind_number : TokenKind → ℕ
kind_number unknown = 0
kind_number at = 1
kind_number raw_identifier = 2
kind_number comma = 3
kind_number equal = 4
kind_number minus = 5
kind_number plus = 6
kind_number l_paren = 7
kind_number r_paren = 8
kind_number l_square = 9
kind_number r_square = 10
kind_number l_brace = 11
kind_number r_brace = 12
kind_number numeric_constant = 13
kind_number kw_true = 14
kind_number kw_false = 15
kind_number char_constant = 16
kind_number wide_char_constant = 17
kind_number utf8_char_constant = 18
kind_number utf16_char_constant = 19
kind_number utf32_char_constant = 20
kind_number string_literal = 21
kind_number wide_string_literal = 22
kind_number utf8_string_literal = 23
kind_number utf16_string_literal = 24
kind_number utf32_string_literal = 25
kind_number (other_kind n) = 26 + n

abbrev pub kind_eq : TokenKind → TokenKind → Bool
kind_eq k j = kind_number k == kind_number j

-- A token: its kind, its text, and where it begins and ends in the text of the attribute.
pub record Token : Type 0 where
  pub kind : TokenKind
  pub spelling : Bytes
  pub start : ℕ
  pub end : ℕ

abbrev pub is : TokenKind → Token → Bool
is k t = kind_eq t.kind k

-- `StringRef(rawStart, rawEnd - rawStart)`
abbrev pub take_bytes : ℕ → Bytes → Bytes
take_bytes zero s = []
take_bytes (suc n) [] = []
take_bytes (suc n) (c ∷ s) = c ∷ take_bytes n s

abbrev pub slice : Bytes → ℕ → ℕ → Bytes
slice text start end = take_bytes (end - start) (drop start text)

pub record ApsInt : Type 0 where
  pub width : ℕ
  pub is_unsigned : Bool
  pub bits : ℕ

-- The format of a float and the four kinds of strings.
pub data FloatFormat : Type 0 where
  float_format float128_format double_format : FloatFormat

pub data StringKind : Type 0 where
  narrow wide utf16 utf32 : StringKind

-- `OKLAttrParam` and `OKLParsedAttr`; the arguments and keywords are lists of their own.
mutual
  pub data ParamValue : Type 0 where
    no_value : ParamValue
    float_value : FloatFormat → Bool → ℕ → ParamValue
    integer : ApsInt → ParamValue
    text_value : StringKind → Bytes → ParamValue
    attr_value : ParsedAttr → ParamValue

  pub data Param : Type 0 where
    param : Bytes → ParamValue → Param

  pub data Params : Type 0 where
    no_params : Params
    more : Param → Params → Params

  pub data Kwargs : Type 0 where
    no_kwargs : Kwargs
    keyword : Bytes → Param → Kwargs → Kwargs

  pub data ParsedAttr : Type 0 where
    parsed : Bytes → Params → Kwargs → ParsedAttr

-- `args.push_back`
abbrev pub push_back : Params → Param → Params
push_back no_params p = more p no_params
push_back (more q qs) p = more q (push_back qs p)

-- `operator<` on `std::string`
abbrev pub bytes_lt : Bytes → Bytes → Bool
bytes_lt [] [] = false
bytes_lt [] (d ∷ t) = true
bytes_lt (c ∷ s) [] = false
bytes_lt (c ∷ s) (d ∷ t) = let rest = bytes_lt s t in if c == d then rest else ltb c d

-- `kwargs.insert_or_assign`, on the pairs in the order of the keys.
abbrev pub insert_or_assign : Bytes → Param → Kwargs → Kwargs
insert_or_assign k v no_kwargs = keyword k v no_kwargs
insert_or_assign k v (keyword j w more_kw) =
    let rest = insert_or_assign k v more_kw in
    if bytes_eq j k
    then keyword k v more_kw
    else if bytes_lt k j
    then keyword k v (keyword j w more_kw)
    else keyword j w rest
