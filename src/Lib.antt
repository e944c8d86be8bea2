-- ===== src/Lib.antt =====
-- Verification of the kernel drivers of tuxedo-drivers: shallow embeddings of the drivers' C code,
-- with theorems about them.
--
-- The drivers reach an embedded controller (EC) that keeps fans, charging, power limits and more
-- in bytes of its RAM, or a controller behind USB. Six families are modelled.
--   NB05: src/tuxedo_nb05/tuxedo_nb05_ec.c accesses the EC's RAM through two I/O ports, and
-- src/tuxedo_nb05/tuxedo_nb05_fan_control.c and tuxedo_nb05_sensors.c stand on it with the hwmon
-- attributes. tuxedo_nb05_power_profiles.c calls the firmware by WMI, and tuxedo_nb05_keyboard.c
-- passes the firmware's events on to it and to the backlight.
--   NB04: src/tuxedo_nb04/tuxedo_nb04_wmi_ab.c and tuxedo_nb04_wmi_bs.c call the firmware by WMI, and
-- the drivers of the power profile, the sensors and the keyboard stand on them.
--   ITE: the drivers in src/ite_8291, src/ite_8291_lb, src/ite_829x and src/ite_8297 send reports to
-- controllers of keyboards and lightbars.
--   src/stk8321/stk8321.c reads the acceleration from a sensor on the I2C bus.
--   Uniwill: src/uniwill_wmi.c accesses the EC's RAM through a WMI method or directly through the
-- registers of a mailbox, and registers its functions as a table (src/uniwill_interfaces.h);
-- src/uniwill_keyboard.h calls the table, with retries where an access may fail, and holds the
-- state of the charging and the fan settings; src/tuxedo_io/tuxedo_io.c sets the power limits and
-- the performance profile over the same access, src/uniwill_leds.h drives the keyboard backlight,
-- and src/tuxedo_nb02_nvidia_power_ctrl the power offsets of the graphics card.
--   Clevo: src/clevo_keyboard.h calls methods of the firmware through the WMI or the ACPI interface
-- and holds the charging thresholds of the battery and the fn lock; src/clevo_leds.h drives the
-- keyboard backlight over the same calls, which src/clevo_wmi.c and src/clevo_acpi.c make.
--   src/tuxedo_io/tuxedo_io.c gives user space both, by ioctl requests.
--   TUXI: src/tuxedo_tuxi/tuxi_acpi.c calls the methods of an ACPI device, and
-- src/tuxedo_tuxi/tuxedo_tuxi_fan_control.c stands on it with the attributes of the fans.
--
-- Files
--   Common: names that all others use. Tests (Boolean tests), Int (C's int results and the errno
-- constants), Lists (the length), Bits (masks and shifts on bytes, by tables over all values), State (code with state
-- as a function of the state), Fields (a field of bits within a byte), Digits (masks at variables).
--   Nb05/Ec: io_write, io_read, nb05_read_ec_ram, nb05_write_ec_ram, the probe. Device says what
-- is relied on of the device behind the ports, Refinement relates the access to a byte store.
--   Nb05/FanControl: the register readers and writers; Attributes has the show and store
-- functions and the driver data; Registers, Duty and Fan2 have the theorems.
--   Nb05/Backlight: the keyboard backlight, with its theorem.
--   Nb05/Profiles: the power profile; Settle says what is relied on of the firmware, and that the
-- profile that was chosen last is set again.
--   Nb05/Keyboard: the events; Modes has the theorem. Nb05/Sensors: the sensors, with their theorem.
--   Nb04/Wmi: the WMI calls; Status is about the keyboard's status. Nb04/Profiles, Nb04/Sensors and
-- Nb04/Keyboard: the drivers that stand on them.
--   Ite: what the ITE drivers share. Ite/Scaling: the colour scaling of ite_8291.c, Ite/Keyboard: its
-- rows and zones; Rows says what is relied on of the keyboard and what it shows, Probe is the start.
--   Ite/Lightbar: ite_8291_lb.c; Resume has the theorem. Ite/Ite829x: ite_829x.c; Resume has the
-- theorem. Ite/Ite8297: ite_8297.c.
--   Stk8321: stk8321.c; Axis and Frequency have the theorems.
--   Uniwill/Interface: the table and the contract IsEcRam by which its clients know it.
--   Uniwill/Wmi: uw_ec_read_addr_direct and the other accesses of uniwill_wmi.c. Mailbox says what
-- is relied on of the EC, Direct follows the requests, Results says what they return, EcRam shows
-- that the table keeps the contract.
--   Uniwill/Access: the state of uniwill_keyboard.h as the record Uniwill, its access functions;
-- Ready says what they do under the contract, Retry is about the retries.
--   Uniwill/Dmi: dmi_match, a parameter.
--   Uniwill/Charging: charging priority and profile; Fields and Attributes have the theorems.
--   Uniwill/Fan: the full fan mode, the fan tables and the direct fan control; Mode,
-- Speed, Table and Restart have the theorems, Init is about the start of the tables, Only what they keep
-- of the driver's state.
--   Uniwill/Tdp: power limits and performance profiles of tuxedo_io.c; Tables has the limits of
-- the devices, Limits, Profile and Set have the theorems.
--   Uniwill/Switches: the boot on AC power and the USB powershare; Fields has the theorems.
--   Uniwill/FnLock: the fn lock, with its theorem.
--   Uniwill/Touchpad: the filter of the keyboard's bytes for the touchpad toggle; Sequence has the
-- steps and the theorems.
--   Uniwill/Leds: the keyboard backlight; Init has its start, Registers what the writes do to the
-- RAM, Restore the set and the restore on resume.
--   Uniwill/Nvidia: the attributes of cTGP and dynamic boost; Enable has the theorems.
--   Uniwill/RomId: the ROM id; Corrected has the theorem. Uniwill/Lightbar: the lightbar; Colors has
-- the theorem. Uniwill/BiosOptions: the hidden BIOS options; Enabled has the theorem.
--   Uniwill/MiniLed: the local dimming of the display and the raw values of the battery.
--   Uniwill/Power: the events, suspend and resume; Fan/Suspend has the theorem about the fans.
--   Uniwill/Probe: the start and the removal of uniwill_keyboard.h, which compose these parts.
--   Tuxi: the exported functions of tuxi_acpi.c; Attributes has the attributes and hwmon reads,
-- Fans what is relied on of the firmware and the theorems.
--   Uniwill/Features: the features of the device; Model is about the model among them.
--   Clevo: the interfaces and the method calls; Interfaces has the steps of their registration.
--   Clevo/Flexicharger: the charging thresholds and their attributes; Closest is about the search,
-- Words about the numbers that are exchanged, Firmware says what is relied on of the two kinds,
-- Legacy and Cc4 that each keeps what Attributes uses.
--   Clevo/Leds: the keyboard backlight; Colors says what the keyboard gets, Init is its start and
-- Init/Registration about the devices that are registered.
--   Clevo/FnLock: the fn lock; Lock has the theorem.
--   Clevo/Access: the tables of clevo_wmi.c and clevo_acpi.c, and their drivers' probes and removals;
-- Tables has the theorem.
--   Clevo/Events: the events of keys and the mode of the backlight; Cycle follows the index of
-- the colour, and Sent what the keyboard shows.
--   Io: the requests and the state of tuxedo_io.c; ClevoIoctl and UniwillIoctl have the handlers,
-- Requests and Dispatch the theorems.
--   Nb05/Tests, Nb04/Tests, Uniwill/Tests, Tuxi/Tests, Clevo/Tests, Ite/Tests,
-- Stk8321/Tests and Io/Tests: the theorems at concrete states,
-- and runs.
--
-- Conventions. A function that changes state is a function of the state into its result and the
-- new state. Numbers are natural numbers, a byte or a word is reduced where the C code stores it;
-- an int result is an ℤ with `pos` and `negsuc`. What a pointer argument or a local variable holds
-- before it is written is an argument, so that a read that fails leaves it as it is. The kernel's
-- port, register, sleep, WMI, DMI and text parsing functions are parameters; what is relied on is
-- named where it is used (IsI2ec, IsMailbox), and each of these hypotheses has a device for which
-- it holds.
--
-- Bounds. The loops over registers and retries have the numbers of rounds of the C code and are
-- structural recursions on them. The wait for the mailbox has the 30 rounds of the C code; what
-- happens when they do not suffice is stated too.
--
-- Not modelled: mutexes (each access runs in one piece), msleep but for the delay that the mailbox
-- sees, log output, registration with the kernel but for its answers, the start
-- of the Clevo keyboard driver and the notify handlers of its two interfaces, the core of the
-- keyboard driver and the check of the computer's model, the touch driver.
pub mod Common
pub mod Nb05
pub mod Nb04
pub mod Uniwill
pub mod Tuxi
pub mod Clevo
pub mod Ite
pub mod Stk8321
pub mod Io
