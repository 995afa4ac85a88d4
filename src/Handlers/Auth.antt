-- ===== src/Handlers/Auth.antt =====
-- handlers/auth.go. A request is `none` where its body is not JSON of the right shape. An upper
-- bound on a text is one on its characters, as the validator counts.
pub mod Requests
pub mod Login
pub mod Register
mod Tests
