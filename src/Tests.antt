-- ===== src/Tests.antt =====
-- Runs of the model on small inputs, and the theorems applied to them.
mod System
mod CallTree
mod Dump
mod Recorder
mod Shipper
mod Config
mod Bootstrap
mod Stub
mod Extract
