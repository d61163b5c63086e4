-- ===== src/Greeklib.antt =====
-- Beta Code words, src/greeklib: letters and marks, syllables, accents, editing in place.
pub mod Letters
pub mod Syllables
pub mod Quantity
pub mod Counting
pub mod Diphthongs
pub mod Marks
pub mod Edit
pub mod Strip
pub mod Stripped
pub mod StripAccents
pub mod Words
pub mod Standard
pub mod StandardWord
pub mod KeepLetters
pub mod Endings
pub mod Editing
mod Examples
mod BinlookExamples
pub mod Binlook
pub mod BinarySearch
pub mod Vax
pub mod VaxWords
