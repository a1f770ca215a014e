-- ===== src/Sessions/Tests.antt =====
-- Two chats, one of them removed.
