-- ===== src/Lib.antt =====
-- A model of the core of the OKL transpiler (lib/ of the repository), which turns C++ kernels with
-- attributes such as @outer, @inner, @tile and @dim into code for CUDA, HIP and other backends.
--
-- The parts, in the order in which a source file meets them:
--   Traverser   lib/pipeline/utils/okl_attribute_traverser.cpp: the state machine that finds
--               `@name(params)` in the tokens. `run` is the `while (true)` on fuel, 2 n + 1 turns for
--               n tokens: an attribute that ends at the token after it has that token processed
--               twice. The visitor is any function on a state of its own.
--   Attrs       lib/attributes/frontend: from the arguments of an attribute to its parameters. What
--               `get<T>()` returns for an argument is part of the data.
--   Params      lib/attributes/frontend/params: the parameters that the loop analysis reads.
--   ForStmt     lib/core/utils/for_stmt_parser.cpp: `parse_for_stmt`, on the tree of Ast. The services
--               of Clang are the record `Clang`, a parameter.
--   Loop        lib/core/sema/okl_sema_info.cpp: the loops of a kernel, as a tree. Loop.Search is the
--               breadth-first search, on fuel for the number of nodes; Loop.Height gives automatic axes
--               a specific one; Loop.Sizes computes the sizes of a block of threads, `size_t` with its
--               wrap-around at 2 ^ 64.
--   Sema        lib/core/sema/okl_sema_ctx.cpp and handlers: the state that the traversal of a kernel
--               keeps. A pointer to a loop is a path in the tree. Sema.Context holds the operations of
--               the whole context, Sema.Marks the methods of a loop that go up to its parents (shouldSync,
--               markSharedUsed, getAttributedParent), Sema.Walk the traversal of a nest of loops
--               (lib/pipeline/stages/transpiler/transpilation.cpp).
--   Verify      lib/attributes/utils/kernel_utils.cpp: the check of a finished kernel, level by level, on
--               fuel for the number of levels.
--   Dim, Text   lib/attributes/backend/common/dim.cpp and `fmt` of lib/util/string_utils.hpp: the text of
--               an access to a @dim variable.
--   Args        lib/attributes/utils/parser.cpp: the recursive descent over the tokens of an attribute, on
--               fuel 2 n + 2 for n tokens. Clang's literal parsers are the record `Lexing`, a parameter.
--   Reading     the expressions of C in the texts that the handlers write: their trees and values, and
--               `is_read`, that C groups a text as its tree. A text from the source is one operand of a tree.
--   Rewrite     lib/attributes/utils/code_gen.cpp: the calls of the rewriter as a list of edits.
--   Stage       what a handler of a loop's attribute works on, handleChildAttr of
--               lib/attributes/utils/kernel_utils.cpp, and the handlers of @nobarrier, @max_inner_dims and
--               @simd_length in lib/attributes/backend/common.
--   Device      lib/attributes/utils/cuda_subset and lib/attributes/backend/dpcpp: the lines of tiled, inner
--               and outer loops, and their handlers (Device.Handle).
--   Serial      lib/attributes/utils/serial_subset: the same for serial code.
--   Atomic      lib/attributes/utils/cuda_subset/atomic.cpp and lib/attributes/backend/dpcpp/atomic.cpp:
--               the text that replaces an @atomic statement.
--   Local       lib/attributes/utils/default_handlers.cpp and the handlers of @shared, @exclusive and
--               @barrier beside it and in lib/attributes/backend/dpcpp. A number is printed on fuel for 20
--               digits, which a word of 64 bits does not exceed.
--   Registry    lib/core/handler_manager and lib/core/target_backends.cpp: the map of handlers
--               (Registry.Manager the calls through it), and the names of the backends.
--   Result      the errors; `undefined_behaviour` is what C++ leaves undefined.
--   Base        shared helpers. Tests holds concrete inputs.
--
-- Sema starts a loop with what ForStmt returns, stops it with an axis from Loop.Height, and Verify reads
-- the tree that Sema has built. Args parses what Traverser has found, Attrs reads the arguments, and the
-- handlers of Device and Serial read the loops of the tree and write edits.
-- A text is a list of bytes, a number the native one.
--
-- Not modelled: Clang and the preprocessor, the printing of kernels, declarations and the launcher,
-- metadata and diagnostics, which are input and output.
pub mod Args
pub mod Serial
pub mod Stage
pub mod Reading
pub mod Device
pub mod Rewrite
pub mod Base
pub mod Registry
pub mod Atomic
pub mod Local
pub mod Result
pub mod Ast
pub mod Loop
pub mod Params
pub mod ForStmt
pub mod Sema
pub mod Verify
pub mod Traverser
pub mod Attrs
pub mod Text
pub mod Dim
pub mod Tests
