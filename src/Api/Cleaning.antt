-- ===== src/Api/Cleaning.antt =====
-- The loops that clean a request's text end, and what they leave.
