-- ===== src/Clevo/Access/Tables.antt =====
-- The registration of the ACPI table by its driver.
use tuxedo_drivers.Clevo.{Clevo}
