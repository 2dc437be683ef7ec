-- ===== src/Api/Middleware.antt =====
-- internal/api/middleware: the check of the API key, the origins of CORS and of the WebSocket, and
-- the limits on requests.
pub mod Auth
pub mod Origins
pub mod Rate
