-- ===== src/Morphlib.antt =====
-- The files of endings, src/morphlib/endio.c, and the comparisons of words, morphstrcmp.c.
pub mod WordForms
pub mod PackedForms
pub mod Endio
pub mod Calls
pub mod Headers
pub mod GroupMark
pub mod StoredEndings
pub mod Morphstrcmp
pub mod Folded
pub mod DictOrder
mod Examples
