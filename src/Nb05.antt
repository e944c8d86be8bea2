-- ===== src/Nb05.antt =====
-- The NB05 platform: src/tuxedo_nb05/.
pub mod Backlight
pub mod Ec
pub mod FanControl
pub mod Keyboard
pub mod Profiles
pub mod Sensors
pub mod Tests
