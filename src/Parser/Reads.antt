-- ===== src/Parser/Reads.antt =====
-- hawkc_parse_auth_header (hawkc/parser.c) on a header with another byte behind it.
