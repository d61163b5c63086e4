-- ===== src/Lib.antt =====
-- A model of the core of libmorpheus, the library for the morphology of Greek and Latin: the parts
-- that read its index of forms, answer requests for generated forms and for analyses, open a context,
-- and work on words in Beta Code.
--
-- A caller opens a context on a stem library (`morpheus_open`), asks for the forms of a lemma
-- (`morpheus_generate`) and reads them from the result. The first request makes a generation service
-- over the file gener.index of the stem library, which is checked as a whole when it is opened and
-- then only searched. The service visits the forms of the lemma's records, the normalizer collects
-- and sorts them, and the request filters them. A request for an analysis (`morpheus_analyze`) sets
-- its options in the context, lets the engine check the word, copies the analyses, and takes its
-- options back. The engine behind both works on words in Beta Code with the small functions of
-- src/greeklib, and reads its tables in the byte order of the VAX.
--
-- The parts and their modules:
--   GenerIndex  src/api/gener_index.c and .h. Bytes: `get_u32`, `get_u64`, `payload_hash`, `add_size`,
--               `table_size`. Format: `string_at` and the checks of one table entry. Open:
--               `valid_layout`, `open_owned`, `open_memory`, `open_file`. Lookup: `lookup`, `block`,
--               `record` (here `record_view`) and the counts. Reads, Sections and Safety are about
--               reads that stay inside the file, LittleEndian about what they read; Tables, WellFormed
--               and Sorted about the lists that an index holds; Search and Navigate about the queries.
--   Api         src/api/context.c, generation.c and result.c. Status: the statuses and languages.
--               Generation: options, filter and copies. Generate: `morpheus_generate` and
--               `ensure_generation_service`. Stemlib and Open: `validate_stemlib`, `morpheus_open`
--               (here `open_context`), `morpheus_open_path`. Results: reading results. Requests,
--               Forms, Answered, Service and Opening hold the theorems.
--               src/api/analyze.c is in Analyze (settings and dictionary), Copy (`copy_analysis`) and
--               Analysing (`morpheus_analyze`), with Restored and Answers for the theorems.
--   Gener       src/gener/generation_service.c. Service: the loops over blocks, records and forms.
--               Visits: what they visit, as lists. Described: a call apart from its code. Walk, Called
--               and Kept hold the theorems.
--   Bridge      src/bridge/legacy_values.c. Values: the traits of the engine as those of the interface.
--               PartOfSpeech and Flags: the part of speech and the flags. Ranges and FlagBits hold
--               the theorems. src/bridge/generation_normalizer.c: Form has the words of the engine,
--               Compare the order of the forms, Normalizer the rest; Collected, Numbering and
--               Normalized hold the theorems.
--   Greeklib    src/greeklib and the character classes of src/includes/greek.h (Letters). Syllables:
--               isdiphth.c, getsyll.c, nsylls.c, getaccp.c, getaccent.c, checkaccent.c. Quantity:
--               quantprim.c, getquantity.c. Marks: the tests for marks, longbyposition.c, gkstrlen.c.
--               Edit: cinsert.c, strsqz.c, xstrings.c, addaccent.c, addbreath.c and the like. Strip:
--               the strip functions. Words: standword.c, zap2ndbreath.c, normucase.c,
--               beta_tolower.c, endsinstr.c. Vax: vaxwords.c. Binlook: binlook.c, with the theorems in
--               BinarySearch. The other modules hold the theorems.
--   Morphlib    src/morphlib/endio.c. WordForms: the traits in 32 bits. Endio: `WriteEnding` and
--               `ReadEnding` (here `write_ending`, `read_ending`), `set_endheader`, `get_endheader`.
--               Calls, GroupMark, PackedForms, Headers and StoredEndings hold the theorems.
--               src/morphlib/morphstrcmp.c is in Morphstrcmp, with the theorems in Folded and
--               DictOrder.
--   Prelude     shared names, lists and tests over the native numbers, `strcmp`, bits of numbers;
--               Comparison: comparisons and their laws; Ascending: sorted lists and what `qsort`
--               promises.
--
-- Correspondence. A function has the name that it has in the source, without the prefix
-- `morpheus_gener_index_` or `morpheus_`. A C string is the list of its bytes before the NUL, a
-- pointer into it is a position, and a function that edits in place returns the new string. The
-- index file is the list of its bytes and a table is its offset. Reading outside a file or an array
-- is the result `fault` of `Run`, and a loop without fuel is `stuck`, so that a result `done` means
-- that neither happened. `size_t` has 64 bits, words wrap around as `% 2 ^ w`. Null pointers are
-- `none`, or `false` for a place where a result goes; in src/greeklib, where a null pointer is an
-- early return, they are left out. ctype.h is that of the C locale.
--
-- Parameters. The answers of the allocator, of stdio and of the file system are arguments of the
-- definitions that ask for them (`FileAnswers`, `Answers`, `Machine`), and so is `qsort`, of which
-- `IsSort` says what its documentation does. The engine, which is not modelled, is a parameter too:
-- the inflection of a record (`Engine`), the check of a word (`Checker`), the name of a stem type.
-- `morpheus_generate` takes the answers of the normalizer as an argument (`Answers`), and the
-- normalizer is modelled apart from it.
--
-- Fuel. The search loop has one round more than the index has lemmas, that of `binlook` one more than
-- the table has entries, and the loops over blocks and records one more than their run is long. The
-- loops over a word have the length of the word, or of what is left of it, and the loop of `ends_in`
-- one more than its second word; each round moves on by a character at least. A round of `standword` can take out accents
-- further on, so that what is left gets shorter still.
--
-- Not modelled: releasing memory, the texts of the statuses, the engine that analyses and inflects
-- words, the tables and data of a stem library, and the programs and bindings around the library.
pub mod Prelude
pub mod GenerIndex
pub mod Greeklib
pub mod Api
pub mod Bridge
pub mod Gener
pub mod Morphlib
