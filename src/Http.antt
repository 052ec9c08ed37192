-- ===== src/Http.antt =====
-- The HTTP server's parts: src/HttpRequest.h, src/HttpContext.h and src/HttpContext.cpp, and
-- src/HttpResponse.h, src/HttpResponse.cpp and src/HttpServer.cpp.
pub mod Request
pub mod Context
pub mod Response
pub mod Server
