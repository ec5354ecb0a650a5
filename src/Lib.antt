-- ===== src/Lib.antt =====
-- fcitx, an input method framework: a model of its core in C and proofs about it.
--
-- The program's parts. Frontends (frontend/) receive the requests of clients and hold an input context
-- for each of their text fields. The manager of src/lib/fcitx/inputcontext.c keeps the contexts, groups
-- them, decides which one has the focus, and dispatches an event for each change to the instance
-- (src/lib/fcitx/instance.c), which hands it to addons and input methods. All of them stand on
-- src/lib/fcitx-utils: UTF-8, strings, keys, containers.
--
-- Files and what they model:
--   Prelude, Prelude/*    tests, lists, integers and bit operations that the models share
--   Utf8                  src/lib/fcitx-utils/utf8.c: one character decoded and encoded, the length and
--                         the comparison of strings; Utf8/Masks and Utf8/RoundTrip are proofs about them
--   Utf8/Validated        the strict decoder and the check of a whole string, with proofs below it
--   Utf8/Copy             the bounded copy and count; Utf8/Copy/Cut has the proofs
--   Utf8/Ascii, Utf8/Walk the ASCII parts of a string; the loops on malformed input
--   PtrArray              src/lib/fcitx-utils/array.c: the growing array; PtrArray/Items has the proofs
--   Strings               src/lib/fcitx-utils/stringutils.c: escaping (Strings/Escape, with proofs in
--                         Strings/Escape/RoundTrip), concatenation (Strings/Cat), trimming (Strings/Trim),
--                         prefixes and suffixes (Strings/Affix), search (Strings/Search)
--   Key                   src/lib/fcitx-utils/key.c: classes of keys, symbols and code points (Key/Search),
--                         normalizing (Key/Normal), matching (Key/Match)
--   ObjPool               src/lib/fcitx-utils/objpool.c: the pool of elements with a linked free list; its
--                         well-formedness (ObjPool/Chain), growth (ObjPool/Grow), operations (ObjPool/Alloc)
--   HandlerTable          src/lib/fcitx-utils/handler-table.c: the handlers of each key as linked ids of an
--                         ObjPool; the lists that they represent (HandlerTable/Links), the lists after a
--                         removal (HandlerTable/Without), and an operation in each other file
--   HashSet               src/lib/fcitx-utils/stringhashset.c: sets of strings, with the proofs in
--                         HashSet/Parse
--   StringList            src/lib/fcitx-utils/stringlist.c: lists of strings, with the proofs in
--                         StringList/Split
--   Addon                 src/lib/fcitx/addon.c: addons, resolvers, initialisation and the body of the loop
--                         that loads them; what a resolver leaves (Frame, Ready), a visit of an addon
--                         (Visit), the end of the loop (Rounds), the load order (Order), the reading of
--                         configurations (Metadata), the whole load (Load) and what it leaves out (Waits),
--                         unloading (Unload), calls by name (Invoke), properties (Properties)
--   InputContext          src/lib/fcitx/inputcontext.c: contexts, focus groups, focus changes, events
--   InputContext/*        what the operations keep (Keeps), do to the focus (Focus), to membership
--                         (Group, Free), to the text around the cursor (Surrounding), to an observer (Events), which leave all of that (Quiet), and
--                         the step relation (Reach)
--   Instance              src/lib/fcitx/instance.c and event.h: the dispatch of events with the tests of their
--                         types and the three branches behind; Instance/Dispatch has the proofs
--   Sort                  src/lib/fcitx-utils/list.c, msort_r.c and sort_common.h: the merge sorts over an
--                         interface of the comparison; what sorting is (Sort/Sorted), merging (Sort/Merged),
--                         the sort of lists (Sort/Lists) and of arrays (Sort/Arrays)
--   MemoryPool            src/lib/fcitx-utils/memory-pool.c: memory from chunks; MemoryPool/Used has the proofs
--   Tests/*               runs at concrete inputs
--
-- How the model reads the code. A C function keeps its name without the prefix `fcitx_`, `fcitx_utils_`,
-- `fcitx_utf8_`, `fcitx_input_context_`, `fcitx_key_`, `fcitx_obj_pool_`, `fcitx_ptr_array_`,
-- `fcitx_handler_` or `fcitx_handler_table_`; a static function with a leading underscore is `raw_...` or
-- described in a comment. A C string is the list of its bytes without the terminator, and a read at its
-- end gives 0. A dictionary of dict.c is the list of its
-- items in the order of the hash table, where a new one comes last. Pointers to contexts, groups, keys and
-- addons, and ids of handlers, are numbers, and the structures
-- behind them are functions of the number. An intrusive list is the list of the entries' owners. The event
-- callback is the list of the events that it received, and a destroy callback the list of its arguments:
-- neither calls back into the code. `uint32_t`, `size_t` and `int` values are natural numbers with the
-- wrap-around written out where the code can reach it; a parameter that may be negative is an integer.
-- The tables of keydata.h are a parameter of the functions that search them.
--
-- Fuel. A loop over the bytes of a string gets one unit more than there are; each round moves on by at
-- least one byte, so the fuel suffices. The binary searches get one unit more than the table has entries,
-- since each round leaves fewer. The growth of an array takes any number above what is missing, since each
-- round adds at least one, and the loop that frees the handlers of a key any number above that of its
-- handlers. The rounds of a load take any number above that of the addons and configurations, since every
-- round but the last disables an addon. The merge sorts get one unit
-- more than there are elements, since both parts of a list that is split are shorter. All other loops are
-- structural.
--
-- Addons. What fcitx_standard_path_locate finds, what a library's symbols are and what an addon's `init`
-- returns are given by functions in the state, and the configurations that the parser of their files gives
-- are a list; `init` does not call the manager back, and two addons do not share their functions. The
-- deletion of an item of a dictionary that is not in the table has no result, and since
-- fcitx_dict_remove_data deletes an item twice, neither has a load that drops an addon.
--
-- Not modelled: allocation failure, the hash tables of uthash.h, the operating system, D-Bus, X and
-- Wayland, and the parts that are glue to them.
pub mod Addon
pub mod HandlerTable
pub mod HashSet
pub mod InputContext
pub mod Instance
pub mod Key
pub mod MemoryPool
pub mod ObjPool
pub mod Prelude
pub mod PtrArray
pub mod Sort
pub mod StringList
pub mod Strings
pub mod Tests
pub mod Utf8
