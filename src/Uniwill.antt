-- ===== src/Uniwill.antt =====
-- The Uniwill devices: src/uniwill_interfaces.h, src/uniwill_wmi.c, src/uniwill_keyboard.h and the power
-- limits of src/tuxedo_io/tuxedo_io.c.
pub mod Interface
pub mod Wmi
pub mod Access
pub mod Dmi
pub mod Charging
pub mod Fan
pub mod Features
pub mod Tdp
pub mod Touchpad
pub mod Switches
pub mod Leds
pub mod Nvidia
pub mod MiniLed
pub mod Probe
pub mod Power
pub mod BiosOptions
pub mod Lightbar
pub mod RomId
pub mod FnLock
pub mod Tests
