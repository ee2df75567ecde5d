-- ===== src/Lists.antt =====
-- Searching and paging in every list: internal/repository/search.go, and listQuery of
-- internal/delivery/http/handler/list_handler.go.
pub mod Search
pub mod Paging
