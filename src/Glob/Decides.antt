-- ===== src/Glob/Decides.antt =====
-- GlobMatch of src/shared.c decides whether a text matches a pattern.
