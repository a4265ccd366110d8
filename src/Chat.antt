-- ===== src/Chat.antt =====
-- app/services/chat_service.py: the handling of a chat request without streaming, on the parts that
-- it calls. A request goes through the guard, policy, transforms, retrieval, redaction, the model
-- and provider constraints, the budget, the provider, the redaction of the answer, the record of
-- its usage, the audit log and the metrics, in this order.
pub mod Service
pub mod Gate
pub mod BudgetGate
pub mod Prepare
pub mod Call
pub mod Completion
pub mod Handle
pub mod Stages
pub mod Kept
pub mod Release
pub mod StreamRelease
pub mod StreamLeak
pub mod StreamRead
pub mod StreamRecord
pub mod Answer
pub mod Promise
pub mod Monad
pub mod OpenStream
pub mod Stream
pub mod StreamEnd
pub mod Pauses
pub mod Settle
pub mod Passed
pub mod StreamPromise
pub mod Embeddings
pub mod EmbeddingsRelease
pub mod EmbeddingsPromise
pub mod Frames
pub mod Denial
pub mod Endings
pub mod EndingGates
pub mod Failure
pub mod Wiring
mod Examples
mod StreamExamples
mod WiringExamples
mod SessionExamples
mod EmbeddingsExamples
mod FailureExamples
