-- ===== src/Proxy/Forward/Credentials.antt =====
-- forward of internal/proxy/proxy.go: the headers of a request to the upstream.
