-- ===== src/Tests.antt =====
-- Tests on small inputs, and each theorem at an input that meets its hypotheses.
mod Messages
mod Plans
mod Turns
mod Edits
mod Calls
mod Files
mod Jobs
mod Conversations
mod TextCalls
mod Pruning
mod Arguments
mod Chatting
