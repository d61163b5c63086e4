-- ===== src/Api.antt =====
-- The public interface, src/api: opening a context, results, and the generation of forms.
pub mod Status
pub mod Generation
pub mod Generate
pub mod Requests
pub mod Wanted
pub mod Forms
pub mod Answered
pub mod Service
pub mod Stemlib
pub mod Open
pub mod Opening
pub mod Results
pub mod Analyze
pub mod Copy
pub mod Analysing
pub mod Restored
pub mod Answers
mod Examples
mod AnalysisExamples
