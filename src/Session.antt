-- ===== src/Session.antt =====
-- class ClientSession (include/session.h, src/session.cpp). Every method is an action on the world
-- of the session with pointer `me`; `Basics` has what the handlers share.
pub mod Basics
pub mod Requests
pub mod Responses
pub mod Account
pub mod Contacts
pub mod Answers
pub mod Creation
pub mod Adding
pub mod Codes
pub mod Signup
pub mod Incoming
pub mod Permission
pub mod Frame
pub mod Kept
pub mod Lifecycle
pub mod Registered
pub mod Reachable
pub mod Login
pub mod Outcomes
pub mod Messages
pub mod Mailbox
pub mod Delivery
pub mod Message
pub mod Isolation
pub mod Broadcast
pub mod Acceptance
pub mod Heartbeat
pub mod Examples
