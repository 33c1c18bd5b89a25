-- ===== src/Uri/Literal/Future/Exact.antt =====
-- `_S_parse_ipv_future` accepts no other texts.
