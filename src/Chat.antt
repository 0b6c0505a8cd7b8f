-- ===== src/Chat.antt =====
-- The agent path of ui/server.py: a chat message on its way through the session lease, Model Armor,
-- the agent and the screening of the conversation, and the control events that it leaves.
pub mod Armor
pub mod Events
pub mod Message
pub mod Turn
mod Tests
