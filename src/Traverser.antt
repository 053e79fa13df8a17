-- ===== src/Traverser.antt =====
-- lib/pipeline/utils/okl_attribute_traverser.cpp and okl_attribute.h: the state machine that finds
-- the `@name(params)` attributes in the tokens of a source file and hands each to a visitor.
-- `Preprocessor::getSpelling` is the spelling that a token carries. The visitor is a callback with
-- a state of its own. `parenDepth` is a `uint32_t`.
pub mod Total
pub mod Step
pub mod Attribute
pub mod First
pub mod Dangling
use occa_transpiler.Base.{
  ℕ, zero, suc, ◌+◌, ◌-◌, ◌*◌, ◌%◌, ◌^◌, Bool, true, false, not, Option, none, some, List, [], ◌∷◌,
  ◌++◌, ◌==◌, if◌then◌else◌, leb, length, get_elem?, is_nil,
}
use occa_transpiler.Ast.{Bytes}
use occa_transpiler.Result.{Result, ok, err, no_tokens_from_source, okl_attr_parsing_err}

-- `tok::TokenKind`, the kinds that the machine tells apart.
pub data TokenKind : Type 0 where
  at_sign identifier l_paren r_paren equal comma string_literal numeric_constant : TokenKind
  kw_false kw_true slash star plus minus other_token : TokenKind

pub record Token : Type 0 where
  pub kind : TokenKind
  pub spelling : Bytes

pub data OklAttributeParserState : Type 0 where
  searching_attr_start parse_attr_name searching_attr_param_list : OklAttributeParserState
  parse_attr_param_list : OklAttributeParserState

pub data FsmStepStatus : Type 0 where
  error token_processed okl_attr_parsed : FsmStepStatus

pub record OklAttribute : Type 0 where
  pub raw : Bytes
  pub name : Bytes
  pub params : Bytes
  pub tok_indecies : List ℕ

abbrev pub no_attr : OklAttribute
no_attr = record { raw = []; name = []; params = []; tok_indecies = [] }

-- `OklAttributePrarserFsm`, without the tokens and the preprocessor, which never change.
pub record Fsm : Type 0 where
  pub token_cursor : ℕ
  pub state : OklAttributeParserState
  pub attr : OklAttribute
  pub paren_depth : ℕ

-- `makeOklAttrParserFsm`
abbrev pub make_fsm : Fsm
make_fsm = record {
  token_cursor = 0;
  state = searching_attr_start;
  attr = no_attr;
  paren_depth = 0;
}

-- `resetFsmAttrState`
abbrev pub reset_fsm_attr_state : Fsm → Fsm
reset_fsm_attr_state f = record f { attr = no_attr; state = searching_attr_start }

-- The parentheses, and `token.isOneOf(...)` in a parameter list.
abbrev pub is_one_of : TokenKind → Bool
is_one_of l_paren = false
is_one_of r_paren = false
is_one_of other_token = false
is_one_of k = true

-- `StringRef::trim('"')`
abbrev pub quote : ℕ
quote = 34

abbrev pub backslash : ℕ
backslash = 92

abbrev ltrim : Bytes → Bytes
ltrim [] = []
ltrim (c ∷ s) = if c == quote then ltrim s else c ∷ s

abbrev rtrim : Bytes → Bytes
rtrim [] = []
rtrim (c ∷ s) =
    let rest = rtrim s in if is_nil rest then (if c == quote then [] else c ∷ []) else c ∷ rest

-- The lambda that spells a parameter: a string literal is trimmed of quotes and put between `\"`.
unfoldable pub param_text : Token → Bytes
param_text t = elim t.kind [
  | string_literal ↦
      (backslash ∷ quote ∷ []) ++ (rtrim (ltrim t.spelling) ++ (backslash ∷ quote ∷ []))
  | _ ↦ t.spelling
]

abbrev pub add_token : Fsm → Bytes → OklAttribute
add_token f text = record f.attr {
  tok_indecies = f.attr.tok_indecies ++ (f.token_cursor ∷ []);
  params = f.attr.params ++ text;
}

abbrev pub wrap : ℕ
wrap = 2 ^ 32

-- The four cases of `processTokenByFsm`.
abbrev on_start : Fsm → Token → TokenKind → Fsm × FsmStepStatus
on_start f t at_sign = (
  record f {
    attr = record f.attr { tok_indecies = f.attr.tok_indecies ++ (f.token_cursor ∷ []) };
    state = parse_attr_name;
  },
  token_processed,
)
on_start f t k = (f, token_processed)

abbrev on_name : Fsm → Token → TokenKind → Fsm × FsmStepStatus
on_name f t identifier = (
  record f {
    attr = record f.attr {
      name = t.spelling;
      tok_indecies = f.attr.tok_indecies ++ (f.token_cursor ∷ []);
    };
    state = searching_attr_param_list;
  },
  token_processed,
)
on_name f t k = (f, error)

abbrev on_param_list : Fsm → Token → TokenKind → Fsm × FsmStepStatus
on_param_list f t l_paren = (
  record f {
    attr = add_token f t.spelling;
    paren_depth = (f.paren_depth + 1) % wrap;
    state = parse_attr_param_list;
  },
  token_processed,
)
on_param_list f t k = (f, okl_attr_parsed)

abbrev on_param : Fsm → Token → TokenKind → Fsm × FsmStepStatus
on_param f t r_paren =
    let depth = (f.paren_depth + wrap - 1) % wrap in
    (
      record f { attr = add_token f t.spelling; paren_depth = depth },
      if depth == 0 then okl_attr_parsed else token_processed,
    )
on_param f t l_paren = (
  record f { attr = add_token f t.spelling; paren_depth = (f.paren_depth + 1) % wrap },
  token_processed,
)
on_param f t k =
    if is_one_of k
    then (record f { attr = add_token f (param_text t) }, token_processed)
    else (f, error)

unfoldable pub process_token_by_fsm : Fsm → Token → Fsm × FsmStepStatus
process_token_by_fsm f t = elim f.state [
  | searching_attr_start ↦ on_start f t t.kind
  | parse_attr_name ↦ on_name f t t.kind
  | searching_attr_param_list ↦ on_param_list f t t.kind
  | parse_attr_param_list ↦ on_param f t t.kind
]

-- `OklAttrVisitor`: the state of the callback, and whether to go on.
abbrev pub Visitor : Type 0 → Type 0
Visitor S = S → OklAttribute → S × Bool

abbrev pub Outcome : Type 0 → Type 0
Outcome S = Option (S × Result (Unit {0}))

module _ {S : Type 0} (tokens : List Token) (visitor : Visitor S) where
  -- What a turn of the `while (true)` does after the step; `next` is the next turn.
  abbrev pub visited : (Fsm → S → Outcome S) → Fsm → S × Bool → Outcome S
  visited next f (s, false) = some (s, ok tt)
  visited next f (s, true) = next (reset_fsm_attr_state f) s

  abbrev pub turn : (Fsm → S → Outcome S) → Fsm × FsmStepStatus → S → Outcome S
  turn next (f, error) s = some (s, err (okl_attr_parsing_err f.token_cursor))
  turn next (f, token_processed) s = next (record f { token_cursor = suc f.token_cursor }) s
  turn next (f, okl_attr_parsed) s = visited next f (visitor s f.attr)

  -- `parseAndVisitOklAttrFromTokens`: the loop, on fuel, with the state of the visitor.
  unfoldable pub run : ℕ → Fsm → S → Outcome S
  run zero f s = none
  run (suc fuel) f s = elim (get_elem? tokens f.token_cursor) [
    | none ↦ some (s, ok tt)
    | some t ↦ turn (run fuel) (process_token_by_fsm f t) s
  ]

  -- `visitOklAttributes`
  unfoldable pub visit_okl_attributes : S → Option (S × Result (Unit {0}))
  unfolding run
  visit_okl_attributes s =
      if is_nil tokens
      then some (s, err no_tokens_from_source)
      else run (suc (2 * length tokens)) make_fsm s
