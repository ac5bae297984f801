-- ===== src/Core/Types.antt =====
-- `ErrorKind` of core/error.rs. Of a `WifiError` the kind is kept, and its message is not.
pub data ErrorKind : Type 0 where
  config nl80211 io interface_not_found scan_failed connect_failed auth_failed : ErrorKind
  wrong_password key_install_failed sae_failed handshake_failed ssid_not_found : ErrorKind
  config_not_found invalid_config netlink_decode deprecated roaming no_support : ErrorKind
