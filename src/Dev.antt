-- ===== src/Dev.antt =====
-- The object model of the vfio device: jobs, keys, address handles, queues and regions.
mod Slots
mod State
mod Jobs
mod Retire
mod Addrs
mod Cqs
mod Qps
mod Steps
mod Mrs
mod Tests
mod Ring
