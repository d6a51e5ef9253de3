-- ===== src/Tests.antt =====
-- The code run on small inputs, and every theorem applied to one.
mod Serving
mod Measuring
mod Routing
mod Waiting
mod Staging
mod Delivering
mod Queueing
mod Improving
mod Cycling
mod Scanning
mod Configuring
mod Recording
