-- ===== src/Api/Opening.antt =====
-- When `morpheus_open` succeeds, and with what context.
use libmorpheus.Prelude.{
  ℕ, ◌≤◌, ◌<◌, ◌≡◌, ◌≢◌, refl, Bool, true, false, ◌||◌, Option, none, some, List, [], ◌∷◌, ◌++◌,
  length, ltb, leb, ◌!=◌, if◌then◌else◌, Bool-cases, Option-cases, inl, inr, arith,
}
use libmorpheus.Api.Status.{Status, Language, greek, latin, italian}
use libmorpheus.Api.Generate.{Context}
use libmorpheus.Api.Stemlib.{ppasslist, required_files, runtime_language_directory}
use libmorpheus.Api.Open.{
  FileState, absent, empty, readable, Machine, Config, abi_version_current, config_size, path_size,
  runtime_language, file_status, stemlib_file, validate_stemlib_file, is_ok, validate_loop,
  last_file, validate_stemlib, new_context, open_validated, open_language, open_root, open_context,
}

-- Each of the files can be read and has a path that fits.
abbrev pub AllReadable : Machine → (root directory : List ℕ) → List (List ℕ) → Type 0
AllReadable machine root directory [] = Unit
AllReadable machine root directory (file ∷ files) =
    (length (stemlib_file root directory file) < path_size)
    × (machine.file (stemlib_file root directory file) ≡ readable)
    × AllReadable machine root directory files

abbrev pub language_files : Language → List (List ℕ)
language_files greek = required_files ++ (ppasslist ∷ [])
language_files latin = required_files
language_files italian = required_files

checked :
    (n : ℕ) (s : FileState)
    → (if leb path_size n then Status.input_too_long else file_status s) ≡ Status.ok
    → (n < path_size) × (s ≡ readable)
checked n absent h = ground arith
checked n empty h = ground arith
checked n readable h = (ground arith, refl)

file_ok :
    (machine : Machine) (root directory file : List ℕ)
    → validate_stemlib_file machine root directory file ≡ Status.ok
    → (length (stemlib_file root directory file) < path_size)
      × (machine.file (stemlib_file root directory file) ≡ readable)
unfolding validate_stemlib_file
file_ok machine root directory file h =
    checked (length (stemlib_file root directory file))
      (machine.file (stemlib_file root directory file)) h

is_ok-eq : (status : Status) → is_ok status ≡ true → status ≡ Status.ok
is_ok-eq status h = ground arith

not_ok : (status : Status) → is_ok status ≡ false → status ≢ Status.ok
not_ok status h e = ground arith

loop_readable :
    (machine : Machine) (root directory : List ℕ) (last : Status) (files : List (List ℕ))
    → validate_loop machine root directory last files ≡ Status.ok
    → AllReadable machine root directory files × (last ≡ Status.ok)
unfolding validate_loop
loop_readable machine root directory last [] h = (tt, h)
loop_readable machine root directory last (file ∷ files) h =
    elim (Bool-cases (is_ok (validate_stemlib_file machine root directory file))) [
      | inl good ↦
          let (fits, there) = file_ok machine root directory file (is_ok-eq _ good) in
          let (others, after) = loop_readable machine root directory last files (rw good at h) in
          ((fits, there, others), after)
      | inr bad ↦ absurd (not_ok _ bad (rw bad at h))
    ]

append_readable :
    (machine : Machine) (root directory : List ℕ) (files : List (List ℕ)) (file : List ℕ)
    → AllReadable machine root directory files
    → validate_stemlib_file machine root directory file ≡ Status.ok
    → AllReadable machine root directory (files ++ (file ∷ []))
append_readable machine root directory [] file h e =
    let (fits, there) = file_ok machine root directory file e in (fits, there, tt)
append_readable machine root directory (x ∷ files) file h e =
    (h.0, h.1, append_readable machine root directory files file h.2 e)

stemlib_readable :
    (machine : Machine) (root : List ℕ) (language : Language)
    → validate_stemlib machine root language ≡ Status.ok
    → AllReadable machine root (runtime_language_directory language) (language_files language)
unfolding validate_stemlib
stemlib_readable machine root greek h =
    let (files, last) =
      loop_readable machine root _ (last_file machine root greek) required_files h in
    append_readable machine root (runtime_language_directory greek) required_files ppasslist files
      last
stemlib_readable machine root latin h = (loop_readable machine root _ _ required_files h).0
stemlib_readable machine root italian h = (loop_readable machine root _ _ required_files h).0

open_validated-ok :
    (machine : Machine) (path : List ℕ) (language : Language) (c : Context)
    → open_validated machine path language ≡ (Status.ok, some c)
    → (validate_stemlib machine path language ≡ Status.ok)
      × (length path < path_size)
      × (machine.runtime_created ≡ true)
      × (machine.path_allocated ≡ true)
      × (c ≡ new_context path language)
open_validated-ok machine path language c h =
    let good : is_ok (validate_stemlib machine path language) ≡ true = ground arith in
    (is_ok-eq _ good, ground arith, ground arith, ground arith, ground arith)

open_root-ok :
    (machine : Machine) (language : ℕ) (path : Option (List ℕ)) (c : Context)
    → open_root machine language path ≡ (Status.ok, some c)
    → (p : List ℕ) × (path ≡ some p)
      × (p ≢ [])
      × ((l : Language) × (runtime_language language ≡ some l)
          × (open_validated machine p l ≡ (Status.ok, some c)))
open_root-ok machine language none c h = absurd (ground arith)
open_root-ok machine language (some []) c h = absurd (ground arith)
open_root-ok machine language (some (x ∷ p)) c h = elim (Option-cases (runtime_language language)) [
  | inl unknown ↦
      let same : open_language machine none (x ∷ p) ≡ (Status.ok, some c) = rw unknown at h in
      absurd (ground arith)
  | inr (l, known) ↦ (x ∷ p, refl, λ e. cc, (l, known, rw known at h))
]

-- A context that opens has the path and the language of the configuration and no generation service
-- yet; the configuration has the version and the size that are wanted, the path is not empty and is
-- short enough, and every file that the language needs is there and not empty.
pub open_context-ok :
    (machine : Machine) (config : Config) (slot : Bool) (c : Context)
    → open_context machine (some config) slot ≡ (Status.ok, some c)
    → (config.abi_version ≡ abi_version_current)
      × (config_size ≤ config.struct_size)
      × (config.stemlib_path ≡ some c.stemlib_path)
      × (c.stemlib_path ≢ [])
      × (length c.stemlib_path < path_size)
      × (runtime_language config.language ≡ some c.language)
      × (c.generation_service ≡ false)
      × AllReadable machine c.stemlib_path
          (runtime_language_directory c.language)
          (language_files c.language)
unfolding open_context
open_context-ok machine config slot c h =
    let root : open_root machine config.language config.stemlib_path ≡ (Status.ok, some c) =
      ground arith in
    let (p, given, full, (l, known, validated)) =
      open_root-ok machine config.language config.stemlib_path c root in
    let (files, fits, _, _, same) = open_validated-ok machine p l c validated in
    rw same (
      ground arith,
      ground arith,
      given,
      full,
      fits,
      known,
      refl,
      stemlib_readable machine p l files,
    )

readable_file :
    (machine : Machine) (root directory file : List ℕ)
    → length (stemlib_file root directory file) < path_size
    → machine.file (stemlib_file root directory file) ≡ readable
    → validate_stemlib_file machine root directory file ≡ Status.ok
unfolding validate_stemlib_file
readable_file machine root directory file fits there =
    let room : leb path_size (length (stemlib_file root directory file)) ≡ false = ground arith in
    rw (room, there)

readable_loop :
    (machine : Machine) (root directory : List ℕ) (last : Status) (files : List (List ℕ))
    → AllReadable machine root directory files
    → last ≡ Status.ok
    → validate_loop machine root directory last files ≡ Status.ok
unfolding validate_loop
readable_loop machine root directory last [] h e = e
readable_loop machine root directory last (file ∷ files) h e =
    rw (readable_file machine root directory file h.0 h.1)
      (readable_loop machine root directory last files h.2 e)

AllReadable-split :
    (machine : Machine) (root directory : List ℕ) (files : List (List ℕ)) (file : List ℕ)
    → AllReadable machine root directory (files ++ (file ∷ []))
    → AllReadable machine root directory files
      × (validate_stemlib_file machine root directory file ≡ Status.ok)
AllReadable-split machine root directory [] file h =
    (tt, readable_file machine root directory file h.0 h.1)
AllReadable-split machine root directory (x ∷ files) file h =
    let (rest, last) = AllReadable-split machine root directory files file h.2 in
    ((h.0, h.1, rest), last)

readable_stemlib :
    (machine : Machine) (root : List ℕ) (language : Language)
    → AllReadable machine root (runtime_language_directory language) (language_files language)
    → validate_stemlib machine root language ≡ Status.ok
unfolding validate_stemlib
readable_stemlib machine root greek h =
    let (files, last) = AllReadable-split machine root _ required_files ppasslist h in
    readable_loop machine root _ _ required_files files last
readable_stemlib machine root latin h = readable_loop machine root _ _ required_files h refl
readable_stemlib machine root italian h = readable_loop machine root _ _ required_files h refl

-- A configuration of the right version and size opens a fresh context if its path is not empty and
-- is short enough, every file that the language needs is there and not empty, and there is memory.
pub open_context-opens :
    (machine : Machine) (config : Config) (b : ℕ) (path : List ℕ) (language : Language)
    → config.abi_version ≡ abi_version_current
    → config_size ≤ config.struct_size
    → config.stemlib_path ≡ some (b ∷ path)
    → length (b ∷ path) < path_size
    → runtime_language config.language ≡ some language
    → AllReadable machine (b ∷ path) (runtime_language_directory language) (language_files language)
    → machine.runtime_created ≡ true
    → machine.path_allocated ≡ true
    → open_context machine (some config) true ≡ (Status.ok, some (new_context (b ∷ path) language))
unfolding open_context
open_context-opens machine config b path language version size given fits known files created
      allocated =
    let files_ok = readable_stemlib machine (b ∷ path) language files in
    let current : (config.abi_version != abi_version_current || ltb config.struct_size config_size)
        ≡ false =
      ground arith in
    let short : leb path_size (length (b ∷ path)) ≡ false = ground arith in
    rw (current, given, known, short, files_ok, created, allocated)
