-- ===== src/Communication/Client.antt =====
-- src/communication/codec/clprotoUpgradeResponseHandler.h, clprotoHandshakeResponseHandler.h and
-- src/communication/clprotoClientBootstrap.cc: how a connection is set up. A message is known by a
-- number, and an error by its code, where 0 is none. What closing, name resolution and the pipeline
-- answer are parameters.
pub mod Handlers
pub mod Connect
pub mod Handled
pub mod Attempts
pub mod Tests
