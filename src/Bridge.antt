-- ===== src/Bridge.antt =====
-- Between the values of the engine and those of the interface: src/bridge.
pub mod Values
pub mod Ranges
pub mod Flags
pub mod FlagBits
pub mod PartOfSpeech
pub mod Form
pub mod Compare
pub mod Normalizer
pub mod Collected
pub mod Numbering
pub mod Normalized
mod Examples
mod NormalizerExamples
