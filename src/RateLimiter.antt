-- ===== src/RateLimiter.antt =====
-- server/auth/rate_limiter.{h,cpp}: the token buckets of each API key, one shared by all of its
-- requests and one for each class of endpoint with a policy. A `double` count of tokens is kept exact:
-- it is a number of shares of 1/60,000,000,000 token, of which one request per minute earns one in a
-- nanosecond. The rounding of the source's doubles, by which a request at the very moment that its token
-- is complete may still be rejected, is not modelled. What the reading of the steady clock gives, in nanoseconds, is an argument of a method; it does not
-- go back from one call to the next.
pub mod Defs
pub mod Buckets
pub mod Available
pub mod Principals
pub mod Admission
pub mod Rate
mod Tests
