-- ===== src/Tests.antt =====
-- An environment in memory, and the properties at concrete inputs.
mod Codec
mod Memory
mod Examples
mod EkvExamples
mod AdminExamples
mod StoredRules
mod StoreExamples
