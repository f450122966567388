-- ===== src/Driver.antt =====
-- windows/rusbmux-usb-win-driver/src: the tool that replaces the drivers of Apple devices on Windows. The
-- program pnputil and the crate wdi_rs are parameters.
pub mod Text
pub mod Listing
pub mod Uninstall
pub mod Install
