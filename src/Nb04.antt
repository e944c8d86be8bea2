-- ===== src/Nb04.antt =====
-- The NB04 platform: src/tuxedo_nb04/.
pub mod Wmi
pub mod Profiles
pub mod Sensors
pub mod Keyboard
pub mod Tests
