-- ===== src/Providers.antt =====
-- The adapters of outside services: providers/brouter_downloads.py,
-- providers/ors_client.py and the caches of providers/base.py.
pub mod Downloads
pub mod OrsClient
pub mod Cache
