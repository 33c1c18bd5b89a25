-- ===== src/Uri/Print/PortText.antt =====
-- The port that `authority` writes is the one that `_S_parse_port` reads.
