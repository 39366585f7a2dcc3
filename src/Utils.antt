-- ===== src/Utils.antt =====
-- webapp/src/utils.js and webapp/src/constants.jsx.
pub mod Permissions
pub mod ClassNames
pub mod Names
pub mod KeyCodes
pub mod Keys
pub mod Inputs
pub mod Links
pub mod Colors
