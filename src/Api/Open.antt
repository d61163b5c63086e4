-- ===== src/Api/Open.antt =====
-- Opening a context: `validate_stemlib`, `morpheus_open` and `morpheus_open_path` of
-- src/api/context.c. What the file system and the allocator answer is in the record `Machine`.
use libmorpheus.Prelude.{
  ℕ, Bool, true, false, ◌||◌, not, Option, none, some, List, [], ◌∷◌, ◌++◌, length, any, ltb, leb,
  ◌==◌, ◌!=◌, if◌then◌else◌,
}
use libmorpheus.Api.Status.{Status, Language, greek, latin, italian}
use libmorpheus.Api.Generate.{Context}
use libmorpheus.Api.Stemlib.{ppasslist, required_files, runtime_language_directory}

-- What `fopen` and the first `fgetc` say of a path.
pub data FileState : Type 0 where
  absent empty readable : FileState

pub record Machine : Type 0 where
  pub file : List ℕ → FileState
  pub runtime_created : Bool
  pub path_allocated : Bool

-- `stemlib_path` is `none` for a null pointer.
pub record Config : Type 0 where
  pub abi_version : ℕ
  pub struct_size : ℕ
  pub stemlib_path : Option (List ℕ)
  pub language : ℕ

abbrev pub abi_version_current : ℕ
abi_version_current = 2

-- `sizeof(morpheus_config)`
abbrev pub config_size : ℕ
config_size = 24

-- MAXPATHNAME
abbrev pub path_size : ℕ
path_size = 512

unfoldable pub runtime_language : ℕ → Option Language
runtime_language language =
    if language == 0
    then some greek
    else if language == 1
    then some latin
    else if language == 2
    then some italian
    else none

abbrev pub file_status : FileState → Status
file_status absent = Status.stemlib_error
file_status empty = Status.stemlib_error
file_status readable = Status.ok

-- "%s/%s/%s"
abbrev pub stemlib_file : List ℕ → List ℕ → List ℕ → List ℕ
stemlib_file root directory relative_path = root ++ (b'/' ∷ (directory ++ (b'/' ∷ relative_path)))

unfoldable pub validate_stemlib_file : Machine → List ℕ → List ℕ → List ℕ → Status
validate_stemlib_file machine root directory relative_path =
    if leb path_size (length (stemlib_file root directory relative_path))
    then Status.input_too_long
    else file_status (machine.file (stemlib_file root directory relative_path))

abbrev pub is_ok : Status → Bool
is_ok Status.ok = true
is_ok Status.invalid_argument = false
is_ok Status.abi_mismatch = false
is_ok Status.no_memory = false
is_ok Status.input_too_long = false
is_ok Status.out_of_range = false
is_ok Status.internal_error = false
is_ok Status.buffer_too_small = false
is_ok Status.stemlib_error = false
is_ok Status.result_limit_exceeded = false

-- The loop over the required files; `last` is what follows it.
unfoldable pub validate_loop : Machine → List ℕ → List ℕ → (last : Status) → List (List ℕ) → Status
validate_loop machine root directory last [] = last
validate_loop machine root directory last (file ∷ files) =
    let status = validate_stemlib_file machine root directory file in
    let rest = validate_loop machine root directory last files in
    if is_ok status then rest else status

abbrev pub last_file : Machine → List ℕ → Language → Status
last_file machine root greek =
    validate_stemlib_file machine root (runtime_language_directory greek) ppasslist
last_file machine root latin = Status.ok
last_file machine root italian = Status.ok

unfoldable pub validate_stemlib : Machine → List ℕ → Language → Status
validate_stemlib machine root language =
    validate_loop machine root (runtime_language_directory language)
      (last_file machine root language) required_files

-- A status, and what the call leaves in `*context`.
abbrev pub OpenedContext : Type 0
OpenedContext = Status × Option Context

-- The context after `morpheus_runtime_context_create`, which zeroes it.
abbrev pub new_context : List ℕ → Language → Context
new_context path language = record {
  language = language;
  stemlib_path = path;
  generation_index = none;
  generation_service = false;
  generation_cleanup = false;
}

abbrev pub open_validated : Machine → List ℕ → Language → OpenedContext
open_validated machine path language =
    let status = validate_stemlib machine path language in
    if leb path_size (length path)
    then (Status.input_too_long, none)
    else if not (is_ok status)
    then (status, none)
    else if not machine.runtime_created
    then (Status.no_memory, none)
    else if not machine.path_allocated
    then (Status.no_memory, none)
    else (Status.ok, some (new_context path language))

abbrev pub open_language : Machine → Option Language → List ℕ → OpenedContext
open_language machine none path = (Status.invalid_argument, none)
open_language machine (some language) path = open_validated machine path language

abbrev pub open_root : Machine → ℕ → Option (List ℕ) → OpenedContext
open_root machine language none = (Status.invalid_argument, none)
open_root machine language (some []) = (Status.invalid_argument, none)
open_root machine language (some (c ∷ path)) =
    open_language machine (runtime_language language) (c ∷ path)

-- `slot` tells whether the pointer `context` is given.
unfoldable pub open_context : Machine → Option Config → (slot : Bool) → OpenedContext
open_context machine none slot = (Status.invalid_argument, none)
open_context machine (some config) slot =
    if not slot
    then (Status.invalid_argument, none)
    else if config.abi_version != abi_version_current || ltb config.struct_size config_size
    then (Status.abi_mismatch, none)
    else open_root machine config.language config.stemlib_path

-- The path is the bytes of the block, whose length is given.
unfoldable pub open_path :
    Machine → (abi_version : ℕ) → Option (List ℕ) → (language : ℕ) → (slot : Bool) → OpenedContext
open_path machine abi_version none language slot = (Status.invalid_argument, none)
open_path machine abi_version (some path) language slot =
    if not slot
    then (Status.invalid_argument, none)
    else if length path == 0
    then (Status.invalid_argument, none)
    else if leb path_size (length path)
    then (Status.input_too_long, none)
    else if any (λ byte. byte == 0) path
    then (Status.invalid_argument, none)
    else open_context machine
        (some (record {
          abi_version = abi_version;
          struct_size = config_size;
          stemlib_path = some path;
          language = language;
        }))
        slot
