-- ===== src/Discovery.antt =====
-- FKLib_Common/Service/Service.go: the pool of connections to the services that etcd lists.
pub mod Pool
pub mod Lifetime
mod Tests
