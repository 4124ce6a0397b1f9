-- ===== src/HttpUtils.antt =====
-- pkg/cosmoguard/http_utils.go: the reader that can be read twice, the response writer that keeps a
-- copy, and the helpers of the handlers.
pub mod Reader
pub mod Writer
