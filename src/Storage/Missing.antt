-- ===== src/Storage/Missing.antt =====
-- storage/Relation.cpp: `loadRow` on a line whose last field is not closed by a '|'.
