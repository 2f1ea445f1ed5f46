-- ===== src/Lib.antt =====
-- A verification library for grind, the log analyser: a model of its C++ server (src/ and include/
-- of the repository) and theorems about it.
--
-- The program. A kernel accepts watchers, which send commands, on one port, and runs feeders, which
-- receive log messages, on a port for each application group. Both kinds of connection hand what
-- they read to a script engine, which calls Lua; the scripts call back into the kernel (register a
-- feeder, set an option) and into connections (send a reply). One worker thread runs the handlers
-- of an io_service.
--
-- How it is modelled. A call of the C++ code is a function of the whole state, `World`, that returns
-- with a new state, throws (as a C++ exception does, keeping the state), or dies of a fault: a null
-- pointer, a dangling one, a self-deadlock, a failed assertion, the end iterator of a map. Objects
-- stand on a heap by address; a posted or asynchronous handler is an entry of a list of waiting
-- handlers. Text is a list of bytes. A Lua script is any tree of callbacks and replies that ends
-- with a return code, so that the theorems hold for all scripts.
--
-- The files, with the code that each is about:
--   Prelude          shared names, tests, lists and byte strings
--   Utility          include/utility.hpp: expand, stringify, convert and convertTo; the decimal text
--                    of a number and what a socket writes (Connections.fill) stand for the libraries
--   Logger           src/logger.cpp, include/logger.hpp
--   CommandLine      src/main.cpp: the argument loop, print_usage
--   Lua, Host        the parameters: the Lua C API with SWIG's runtime, and the operating system
--                    behind Boost; no code of the repository. Lua.Values is what scripts pass on
--   World            include/kernel.hpp, include/connection.hpp, include/script_engine.hpp: the
--                    state; World.Monad the control flow; World.Mutex the locks; World.Frame what
--                    a call leaves alone; World.Twins calls that do the same
--   Objects          the constructors of connection and feeder, and small methods
--   Registry         src/kernel.cpp: feeder::listen and accept, kernel::register_feeder and the map
--                    of feeders
--   Swig             src/bindings/SWIG/wrappers/lua_grind_wrap.cxx: the wrappers that scripts call,
--                    their checks (Swig.Arguments), the methods of strings, options, kernel and
--                    connections, the members of a class (Swig.Classes), and the set-up of the
--                    module (Swig.Modules)
--   Bridge           src/script_engine.cpp: pushing arguments, and a script's calls of wrappers
--   Engine           src/script_engine.cpp: everything else
--   Connections      src/connection.cpp, and the feeder methods of src/kernel.cpp that start, close
--                    and stop connections
--   Kernel           src/kernel.cpp: the kernel itself
--   EventLoop        src/kernel.cpp: kernel::work, as turns in which a waiting handler runs
--   Program          src/main.cpp: the calls of main after its argument loop
--   Examples         tests, and each theorem at a concrete input
--
-- A module Steady of a part shows what the part leaves alone in the registry of feeders, for the
-- invariant of the registry (Registry.Invariant) over the whole run. A module Tidy of a part follows
-- the mutexes from one call to the next.
--
-- Bounds and fuel. The argument loop of main runs on fuel, of which one more than the number of
-- arguments is enough; the padding and the decimal loop run on the wanted size and on the number.
-- Kernel.stop may be entered again from a failing Lua call under CATCH_AND_DIE; two levels are kept:
-- a stop inside a stop finds the mutex of the engine held and Lua closed or being closed, and so
-- cannot fail in Lua again.
-- The loop takes a list of events, which names the handler that is ready and what it is told.
-- Ports are integers and characters natural numbers, and nothing in the modelled code computes with
-- them. The sizes that strings report to Lua are taken modulo 2^32.
--
-- Not modelled: log lines inside the kernel, engine and connections; signals; two threads at the
-- same time (main runs its own calls after the loop); std::map's order of labels; kernels that a
-- script makes of its own, and userdata of other libraries; the rest of SWIG's runtime (the lookup
-- of types over several modules, packed data, who owns an object); the Lua scripts; the watchers and
-- keepers, which are other programs. A connection is freed when
-- its feeder lets it go or is deleted, when the last handler that closes a watcher has run, and by
-- Lua's collection; that the kernel's stop also frees a watcher that has not come yet is left out.
-- A freed address is not used again.
pub mod Prelude
pub mod Utility
pub mod Logger
pub mod CommandLine
pub mod Lua
pub mod Host
pub mod World
pub mod Objects
pub mod Registry
pub mod Swig
pub mod Bridge
pub mod Engine
pub mod Connections
pub mod Kernel
pub mod EventLoop
pub mod Program
mod Examples
