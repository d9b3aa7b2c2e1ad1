-- ===== src/Auth.antt =====
-- pkg/auth/handler.go and pkg/auth/websocketstore.go, by what the handlers are for.
pub mod Instance
pub mod Tokens
pub mod Login
pub mod Websocket
pub mod User
