-- ===== src/Io/Tests.antt =====
-- The theorems of the ioctl interface at concrete states: a webcam that toggles, and sample devices.
use text.Mathlib.Text.{◌==◌ as str_eq}
use tuxedo_drivers.Common.{
  ℕ, ◌%◌, ◌≡◌, refl, arith, Bool, true, false, if◌then◌else◌, ◌==◌, success, none, some, [], Ram,
  not,
}
use tuxedo_drivers.Uniwill.Dmi.{Dmi, any_match}
use tuxedo_drivers.Uniwill.Interface.{plain_ram, plain_ram-IsEcRam}
use tuxedo_drivers.Uniwill.Tdp.{Limits, uw_get_tdp_min, uw_get_tdp_max}
use tuxedo_drivers.Uniwill.Tdp.Tables.{uw_id_tdp, tdp_min_phxpxx, tdp_max_phxpxx}
use tuxedo_drivers.Uniwill.Tests.{sample, sample-Ready, Ready, start}
use tuxedo_drivers.Clevo.{integer, ClevoInterface, Clevo, acpi_strid}
use tuxedo_drivers.Io.{
  Io, nothing, word, returned, fault, w_cl_webcam_sw, r_hwcheck_uw, r_uw_model_id, w_uw_tdp2,
  r_uw_tdp2,
}
use tuxedo_drivers.Io.ClevoIoctl.{clevo_ioctl_interface}
use tuxedo_drivers.Io.UniwillIoctl.{fop_ioctl}
use tuxedo_drivers.Io.Requests.{IsWebcam, webcam_sets}
use tuxedo_drivers.Io.Dispatch.{tdp_requests_round, hwcheck_enables}

abbrev no_dmi : Dmi
no_dmi field name = false

abbrev aura : Dmi
aura field name = str_eq name "AURA14GEN3"

-- A webcam that toggles with every set.
abbrev toggling : ClevoInterface Bool
toggling = record {
  address = 1;
  string_id = acpi_strid;
  method_call = λ cmd arg on.
      if cmd == 0x22
      then ((success, integer 0), not on)
      else ((success, integer (if on then 1 else 0)), on);
  method_call_pkgbuf = λ cmd arg on. (success, on);
}

abbrev shown : Bool → ℕ
shown on = if on then 1 else 0

toggles :
    (argument : ℕ) (on : Bool) → (argument % 2 == shown on) ≡ false → shown (not on) ≡ argument % 2
toggles argument true h = ground (arith, h)
toggles argument false h = ground (arith, h)

low_bit : (on : Bool) → shown on % 2 ≡ shown on
low_bit true = refl
low_bit false = refl

toggling-IsWebcam : IsWebcam no_dmi toggling shown
toggling-IsWebcam = record {
  word_of = shown;
  gets = λ s. refl;
  low_bit = low_bit;
  gets_view = λ s. refl;
  sets_view = toggles;
  answers = λ argument s. (0, refl);
}

abbrev with_webcam : Clevo Bool
with_webcam = record {
  wmi = none;
  acpi = some toggling;
  active = some toggling;
  firmware = true;
  calls = [];
}

-- The webcam is on and is to be on: nothing is sent.
webcam_sets_example :
    let x = clevo_ioctl_interface no_dmi w_cl_webcam_sw (some 1) 0 with_webcam in
    (x.0 ≡ (success, nothing)) × (shown x.1.firmware ≡ 1)
unfolding any_match
webcam_sets_example =
    webcam_sets no_dmi toggling shown toggling-IsWebcam (some 1) 0 with_webcam refl refl

abbrev limits : Limits
limits = some (tdp_min_phxpxx, tdp_max_phxpxx)

abbrev before : Io Bool Ram
before = record {
  clevo = with_webcam;
  uniwill = sample;
  id_check_clevo = 0;
  id_check_uniwill = 0;
  uw_feats = false;
  limits = none;
}

abbrev checked : Io Bool Ram
checked = record before { uw_feats = true; limits = limits }

-- The third limit is stored halved.
tdp_requests_round_example :
    let set = fop_ioctl no_dmi start 0 w_uw_tdp2 (some 101) 0 checked in
    (set.0 ≡ returned success nothing)
    × ((fop_ioctl no_dmi start 0 r_uw_tdp2 none 0 set.1).0 ≡ returned success (word 100))
unfolding uw_get_tdp_min uw_get_tdp_max
tdp_requests_round_example =
    tdp_requests_round no_dmi start 0 0 plain_ram (λ f. Unit {0}) (λ f. f) plain_ram-IsEcRam 2 5 110
      101 checked (omega arith) refl refl (omega arith) (omega arith) none sample-Ready refl
      (omega arith)

-- The features are not loaded yet.
abbrev fresh : Io Bool Ram
fresh = record before { uniwill = record sample { feats_loaded = false } }

-- No table is registered.
abbrev without_table : Io Bool Ram
without_table = record before { uniwill = record sample { wmi = none } }

fresh-Ready : Ready fresh.uniwill
fresh-Ready = record { registered = refl; ec_ready = tt }

hwcheck_enables_example :
    let x = fop_ioctl no_dmi start 0 r_hwcheck_uw none 0 fresh in
    let y = fop_ioctl no_dmi start 0 r_hwcheck_uw none 0 without_table in
    ((fop_ioctl no_dmi start 0 r_uw_model_id none 0 fresh).0 ≡ fault)
    × (x.0 ≡ returned success (word 1))
    × (x.1.limits ≡ uw_id_tdp 0x40 no_dmi)
    × ((fop_ioctl no_dmi start 0 r_uw_model_id none 0 x.1).0 ≡ returned success (word 0x40))
    × (y.0 ≡ returned success (word 0))
    × ((fop_ioctl no_dmi start 0 r_uw_model_id none 0 y.1).0 ≡ fault)
hwcheck_enables_example =
    hwcheck_enables no_dmi start 0 0 plain_ram (λ f. Unit {0}) (λ f. f) plain_ram-IsEcRam fresh
      without_table none none fresh-Ready refl refl refl refl
