-- ===== src/Networks.antt =====
-- Networks: what one may be called and how it may be configured, apollo/networks_config.go with the
-- checks of apollo/networks_utils.go.
pub mod Keys
pub mod Validate
pub mod Mtu
