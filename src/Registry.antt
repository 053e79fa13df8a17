-- ===== src/Registry.antt =====
-- lib/core/handler_manager and lib/core/target_backends.cpp: the handlers that the attributes and the nodes
-- of the tree have for a backend. The kinds of Clang's nodes are numbers, 0 for none; the clade of a kind
-- and the test for an attribute of OKL are parameters. `std::map` is the list of its pairs; nothing reads their order.
pub mod Lookup
pub mod Backends
pub mod Manager
pub mod Checked
use occa_transpiler.Base.{
  ℕ, ◌+◌, ltb, Bool, true, false, not, ◌||◌, ◌&&◌, Option, none, some, List, [], ◌∷◌, ◌++◌, ◌==◌,
  if◌then◌else◌, is_some,
}
use occa_transpiler.Ast.{Bytes}
use occa_transpiler.Result.{Result, ok, err, unknown_backend}
use occa_transpiler.ForStmt.{bytes_eq}
use occa_transpiler.Text.Literal.{codes}

pub data TargetBackend : Type 0 where
  serial openmp cuda hip dpcpp launcher : TargetBackend

pub data HandleType : Type 0 where
  common_handle backend_handle implicit_handle sema_handle parser_handle : HandleType

-- The number of a constructor, for `==` and `<`.
abbrev pub backend_number : TargetBackend → ℕ
backend_number serial = 0
backend_number openmp = 1
backend_number cuda = 2
backend_number hip = 3
backend_number dpcpp = 4
backend_number launcher = 5

abbrev pub type_number : HandleType → ℕ
type_number common_handle = 0
type_number backend_handle = 1
type_number implicit_handle = 2
type_number sema_handle = 3
type_number parser_handle = 4

-- `toLower`, byte by byte in the C locale.
abbrev pub lower : ℕ → ℕ
lower c = if ltb 64 c && ltb c 91 then c + 32 else c

abbrev pub to_lower : Bytes → Bytes
to_lower [] = []
to_lower (c ∷ s) = lower c ∷ to_lower s

abbrev pub backend_to_string : TargetBackend → Bytes
backend_to_string serial = codes "serial"
backend_to_string openmp = codes "openmp"
backend_to_string cuda = codes "cuda"
backend_to_string hip = codes "hip"
backend_to_string dpcpp = codes "dpcpp"
backend_to_string launcher = codes "launcher"

-- `BACKENDS_MAP`, and the search in it.
abbrev pub backends_map : List (Bytes × TargetBackend)
backends_map =
    (codes "serial", serial)
    ∷ (codes "openmp", openmp)
    ∷ (codes "cuda", cuda)
    ∷ (codes "hip", hip)
    ∷ (codes "dpcpp", dpcpp)
    ∷ (codes "launcher", launcher)
    ∷ []

abbrev pub find_backend : Bytes → List (Bytes × TargetBackend) → Result TargetBackend
find_backend s [] = err unknown_backend
find_backend s ((name, b) ∷ more) = if bytes_eq s name then ok b else find_backend s more

unfoldable pub backend_from_string : Bytes → Result TargetBackend
backend_from_string s = find_backend (to_lower s) backends_map

abbrev pub is_host_category : TargetBackend → Bool
is_host_category serial = true
is_host_category openmp = true
is_host_category _ = false

abbrev pub is_device_category : TargetBackend → Bool
is_device_category cuda = true
is_device_category hip = true
is_device_category dpcpp = true
is_device_category _ = false

-- `HandleKeyBase`
pub record HandlerKey : Type 0 where
  pub type : HandleType
  pub backend : Option TargetBackend
  pub attr : Bytes
  pub kind : ℕ

abbrev pub same_backend : Option TargetBackend → Option TargetBackend → Bool
same_backend none none = true
same_backend (some a) (some b) = backend_number a == backend_number b
same_backend _ _ = false

abbrev pub key_eq : HandlerKey → HandlerKey → Bool
key_eq k j =
    type_number k.type == type_number j.type
    && (same_backend k.backend j.backend && (bytes_eq k.attr j.attr && k.kind == j.kind))

abbrev pub common_key : Bytes → ℕ → HandlerKey
common_key name kind = record { type = common_handle; backend = none; attr = name; kind = kind }

abbrev pub backend_key : TargetBackend → Bytes → ℕ → HandlerKey
backend_key b name kind = record {
  type = backend_handle;
  backend = some b;
  attr = name;
  kind = kind;
}

abbrev pub implicit_key : TargetBackend → ℕ → HandlerKey
implicit_key b kind = record { type = implicit_handle; backend = some b; attr = []; kind = kind }

abbrev pub sema_key : Bytes → ℕ → HandlerKey
sema_key name kind = record { type = sema_handle; backend = none; attr = name; kind = kind }

abbrev pub parser_key : Bytes → HandlerKey
parser_key name = record { type = parser_handle; backend = none; attr = name; kind = 0 }

-- `_nodeHandlers`, for any type of handlers.
module _ {H : Type 0} where
  abbrev pub find_handler : HandlerKey → List (HandlerKey × H) → Option H
  find_handler k [] = none
  find_handler k ((j, h) ∷ more) = if key_eq k j then some h else find_handler k more

  -- `insert`: the map and whether the key was new, by `try_emplace`.
  abbrev pub insert : HandlerKey → H → List (HandlerKey × H) → List (HandlerKey × H) × Bool
  insert k h m = elim (find_handler k m) [ none ↦ ((k, h) ∷ m, true) | some g ↦ (m, false) ]

  -- The loop over an array of keys.
  abbrev pub first_handler : List HandlerKey → List (HandlerKey × H) → Option H
  first_handler [] m = none
  first_handler (k ∷ ks) m = elim (find_handler k m) [ none ↦ first_handler ks m | some h ↦ some h ]

module _ (clade : ℕ → ℕ) where
  abbrev pub common_keys : Bytes → ℕ → List HandlerKey
  common_keys name kind = common_key name kind ∷ common_key name (clade kind) ∷ []

  abbrev pub backend_keys : TargetBackend → Bytes → ℕ → List HandlerKey
  backend_keys b name kind = backend_key b name kind ∷ backend_key b name (clade kind) ∷ []

  abbrev pub implicit_keys : TargetBackend → ℕ → List HandlerKey
  implicit_keys b kind = implicit_key b kind ∷ implicit_key b (clade kind) ∷ []

  abbrev pub sema_keys : Bytes → ℕ → List HandlerKey
  sema_keys name kind = sema_key name kind ∷ sema_key name (clade kind) ∷ []

  module _ {H : Type 0} (m : List (HandlerKey × H)) where
    -- The functions `hasHandler` and `hasSemeHandler`.
    abbrev pub has_common : Bytes → ℕ → Bool
    has_common name kind = is_some (first_handler (common_keys name kind) m)

    abbrev pub has_backend : TargetBackend → Bytes → ℕ → Bool
    has_backend b name kind = is_some (first_handler (backend_keys b name kind) m)

    abbrev pub has_implicit : TargetBackend → ℕ → Bool
    has_implicit b kind = is_some (first_handler (implicit_keys b kind) m)

    abbrev pub has_parser : Bytes → Bool
    has_parser name = is_some (find_handler (parser_key name) m)

    abbrev pub has_sema : Bytes → ℕ → Bool
    has_sema name kind = is_some (first_handler (sema_keys name kind) m)
