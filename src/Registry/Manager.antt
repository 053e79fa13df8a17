-- ===== src/Registry/Manager.antt =====
-- The calls of HandlerMap and HandlerManager: which handler runs for a node, an attribute or its parameters,
-- and the check that every attribute has one. A state `S` stands for the session, `N` for the nodes
-- and `P` for the parameters of an attribute.
use occa_transpiler.Base.{
  ℕ, Bool, false, not, ◌||◌, Option, none, some, List, [], ◌∷◌, ◌==◌, if◌then◌else◌,
}
use occa_transpiler.Ast.{Bytes}
use occa_transpiler.Result.{Result, ok, err, ◌>>=◌, no_handler}
use occa_transpiler.Args.{ParsedAttr, parsed}
use occa_transpiler.Stage.{StmtAttr}
use occa_transpiler.Registry.{
  TargetBackend, HandlerKey, parser_key, find_handler, first_handler, common_keys, backend_keys,
  implicit_keys, sema_keys, has_common, has_backend,
}

-- `NodeHandler`, with the virtual functions of the three kinds of handlers.
pub record NodeHandler (S N P : Type 0) : Type 0 where
  pub handle_node : S → N → Result S
  pub handle_attr : S → N → StmtAttr → P → Result S
  pub parse : S → StmtAttr → ParsedAttr → Result P
  pub pre : S → N → Option StmtAttr → Result S
  pub post : S → N → Option StmtAttr → Result S

abbrev pub name_of : Option StmtAttr → Bytes
name_of none = []
name_of (some a) = a.name

abbrev pub parsed_name : ParsedAttr → Bytes
parsed_name (parsed name ps ks) = name

-- A node as `checkAttrs` tells nodes apart: a declaration, a statement with attributes (and the kind of the
-- statement below), or another.
pub data CheckedNode : Type 0 where
  decl_node : ℕ → List (Option StmtAttr) → CheckedNode
  attributed_stmt : ℕ → List (Option StmtAttr) → CheckedNode
  other_node : CheckedNode

module _ {S N P : Type 0} (clade : ℕ → ℕ) (kind_of : N → ℕ)
    (m : List (HandlerKey × NodeHandler S N P)) where
  abbrev pub handle_implicit : TargetBackend → S → N → Result S
  handle_implicit b s n = elim (first_handler (implicit_keys clade b (kind_of n)) m) [
    | none ↦ ok s
    | some h ↦ h.handle_node s n
  ]

  abbrev pub handle_backend : TargetBackend → S → N → StmtAttr → P → Result S
  handle_backend b s n a p = elim (first_handler (backend_keys clade b a.name (kind_of n)) m) [
    | none ↦ err no_handler
    | some h ↦ h.handle_attr s n a p
  ]

  -- Common handlers first, then those of the backend.
  abbrev pub handle_attribute : TargetBackend → S → N → StmtAttr → P → Result S
  handle_attribute b s n a p = elim (first_handler (common_keys clade a.name (kind_of n)) m) [
    | none ↦ handle_backend b s n a p
    | some h ↦ h.handle_attr s n a p
  ]

  abbrev pub handle_pre : S → N → Option StmtAttr → Result S
  handle_pre s n a = elim (first_handler (sema_keys clade (name_of a) (kind_of n)) m) [
    | none ↦ ok s
    | some h ↦ h.pre s n a
  ]

  abbrev pub handle_post : S → N → Option StmtAttr → Result S
  handle_post s n a = elim (first_handler (sema_keys clade (name_of a) (kind_of n)) m) [
    | none ↦ ok s
    | some h ↦ h.post s n a
  ]

  -- `parse_okl` is `ParseOKLAttr`, for an attribute that comes without its arguments, and `empty_params` the
  -- `EmptyParams` of an attribute without a parser.
  module _ (parse_okl : StmtAttr → Result ParsedAttr) (empty_params : P) where
    abbrev pub parse_attribute : S → StmtAttr → Option ParsedAttr → Result P
    parse_attribute s a none = elim (find_handler (parser_key a.name) m) [
      | none ↦ ok empty_params
      | some h ↦ parse_okl a >>= λ q. h.parse s a q
    ]
    parse_attribute s a (some q) = elim (find_handler (parser_key (parsed_name q)) m) [
      | none ↦ ok empty_params
      | some h ↦ h.parse s a q
    ]

  -- `checkAttrs`: the set of attributes, by their pointers.
  module _ (is_okl : StmtAttr → Bool) (b : TargetBackend) where
    abbrev pub has_pointer : ℕ → List StmtAttr → Bool
    has_pointer i [] = false
    has_pointer i (a ∷ attrs) = (i == a.id) || has_pointer i attrs

    abbrev pub insert_attr : StmtAttr → List StmtAttr → List StmtAttr
    insert_attr a attrs = if has_pointer a.id attrs then attrs else a ∷ attrs

    abbrev pub handled : ℕ → StmtAttr → Bool
    handled kind a = has_common clade m a.name kind || has_backend clade m b a.name kind

    unfoldable pub check_each : ℕ → List (Option StmtAttr) → List StmtAttr → Result (List StmtAttr)
    check_each kind [] found = ok found
    check_each kind (none ∷ attrs) found = check_each kind attrs found
    check_each kind (some a ∷ attrs) found =
        let without = check_each kind attrs found in
        let with_it = check_each kind attrs (insert_attr a found) in
        if not (is_okl a) then without else if not (handled kind a) then err no_handler else with_it

    abbrev pub reversed : List (Option StmtAttr) → List (Option StmtAttr) → List (Option StmtAttr)
    reversed [] rs = rs
    reversed (a ∷ attrs) rs = reversed attrs (a ∷ rs)

    abbrev pub check_attrs : CheckedNode → Result (List StmtAttr)
    check_attrs (decl_node kind attrs) = check_each kind (reversed attrs []) []
    check_attrs (attributed_stmt kind attrs) = check_each kind attrs []
    check_attrs other_node = ok []
