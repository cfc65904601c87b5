-- ===== src/Profile/Preserve.antt =====
-- The fields of a profile after an edit.
