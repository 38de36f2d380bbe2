-- ===== src/ProseMirror.antt =====
-- api/services/prosemirror.py: ProseMirror JSON on a server that cannot run ProseMirror.
pub mod Utf16
pub mod Node
pub mod Tokens
pub mod Blocks
pub mod Edit
