-- ===== src/Clouds/Verda.antt =====
-- pkg/provider/verda/provider.go. The answers of the client are those within one operation, where a
-- number counts its calls of one kind; a price is parsed by a parameter, as the numbers are. What an
-- operation does at Verda is the list of its actions, in order.
pub mod Search
pub mod Instances
pub mod Client
pub mod Calls
pub mod Lives
pub mod Fits
