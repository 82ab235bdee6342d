-- ===== src/Hub.antt =====
-- internal/ws/hub.go: the hub that fans committed events out to WebSocket subscribers.
--
-- A client is named by a number. Each function below is what one goroutine does between taking a
-- lock and letting it go, so that an interleaving of goroutines is a sequence of these calls.
-- `go c.close()` is the flag `closing`. What the peer reads, and when, is `written`. JSON encoding
-- is a parameter: `none` where json.Marshal returns an error.
pub mod Client
pub mod Server
pub mod Delivery
pub mod Bounds
pub mod Index
