-- ===== src/Proxy.antt =====
-- internal/proxy/proxy.go: `Forward`, which sends a request to the provider's endpoints in turn until
-- one answers for good. What it calls is an interface over a state: the key selector, the HTTP
-- client and the optional attempt recorder.
--   Proxy/Headers.antt    http.Header and the upstream request
--   Proxy/Classify.antt   what an upstream answer means: policy, plan limit, diagnostics
--   Proxy/Forward.antt    the loop
--   Proxy/Log.antt        the log of attempts
pub mod Headers
pub mod Classify
pub mod Forward
pub mod Outcome
pub mod Attempts
pub mod Log
