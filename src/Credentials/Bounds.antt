-- ===== src/Credentials/Bounds.antt =====
-- No endpoint can hang a request.
