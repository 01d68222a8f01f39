-- ===== src/Lsp.antt =====
-- The language server of tools/lsp, as far as it does not call the parser or JSON of LLVM: its
-- messages, its positions and the records of the files that are open.
pub mod Transport
pub mod Overlay
