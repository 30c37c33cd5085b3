-- ===== src/Router.antt =====
-- src/services/cg_router.c: the replies to requests.
pub mod Text
pub mod Form
pub mod Replies
pub mod Profile
pub mod Account
pub mod Board
pub mod Verify
pub mod Routes
pub mod Safe
