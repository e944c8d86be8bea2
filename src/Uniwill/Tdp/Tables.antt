-- ===== src/Uniwill/Tdp/Tables.antt =====
-- src/tuxedo_io/tuxedo_io.c: the limits of the three power limits (TDP) that a device has, in watt. A
-- device takes the ones of the first line that matches. An array is a list; 0 is a limit that is
-- not supported.
use tuxedo_drivers.Common.{ℕ, List, [], ◌∷◌, Option, some, none, if◌then◌else◌, ◌==◌, ◌||◌, ◌&&◌}
use tuxedo_drivers.Uniwill.Dmi.{Dmi}
use tuxedo_drivers.Uniwill.Dmi.DmiField.{board_name, product_sku}

abbrev pub uw_model_ph4trx : ℕ
uw_model_ph4trx = 0x12

abbrev pub uw_model_ph4tux : ℕ
uw_model_ph4tux = 0x13

abbrev pub uw_model_ph4tqf : ℕ
uw_model_ph4tqf = 0x14

abbrev pub tdp_min_ph4tux : List ℕ
tdp_min_ph4tux = 0x05 ∷ 0x05 ∷ 0x00 ∷ []

abbrev pub tdp_max_ph4tux : List ℕ
tdp_max_ph4tux = 0x26 ∷ 0x26 ∷ 0x00 ∷ []

abbrev pub tdp_min_ph4trx : List ℕ
tdp_min_ph4trx = 0x05 ∷ 0x05 ∷ 0x00 ∷ []

abbrev pub tdp_max_ph4trx : List ℕ
tdp_max_ph4trx = 0x32 ∷ 0x32 ∷ 0x00 ∷ []

abbrev pub tdp_min_ph4tqx : List ℕ
tdp_min_ph4tqx = 0x05 ∷ 0x05 ∷ 0x00 ∷ []

abbrev pub tdp_max_ph4tqx : List ℕ
tdp_max_ph4tqx = 0x32 ∷ 0x32 ∷ 0x00 ∷ []

abbrev pub tdp_min_phxaxx_mk1 : List ℕ
tdp_min_phxaxx_mk1 = 0x05 ∷ 0x05 ∷ 0x00 ∷ []

abbrev pub tdp_max_phxaxx_mk1 : List ℕ
tdp_max_phxaxx_mk1 = 0x32 ∷ 0x3c ∷ 0x00 ∷ []

abbrev pub tdp_min_phxaxx_mk2 : List ℕ
tdp_min_phxaxx_mk2 = 0x05 ∷ 0x05 ∷ 0x00 ∷ []

abbrev pub tdp_max_phxaxx_mk2 : List ℕ
tdp_max_phxaxx_mk2 = 0x37 ∷ 0x64 ∷ 0x00 ∷ []

abbrev pub tdp_min_phxpxx : List ℕ
tdp_min_phxpxx = 0x05 ∷ 0x05 ∷ 0x05 ∷ []

abbrev pub tdp_max_phxpxx : List ℕ
tdp_max_phxpxx = 0x2d ∷ 0x3c ∷ 0x6e ∷ []

abbrev pub tdp_min_pfxluxg : List ℕ
tdp_min_pfxluxg = 0x05 ∷ 0x05 ∷ 0x05 ∷ []

abbrev pub tdp_max_pfxluxg : List ℕ
tdp_max_pfxluxg = 0x23 ∷ 0x23 ∷ 0x28 ∷ []

abbrev pub tdp_min_gmxngxx : List ℕ
tdp_min_gmxngxx = 0x05 ∷ 0x05 ∷ 0x05 ∷ []

abbrev pub tdp_max_gmxngxx : List ℕ
tdp_max_gmxngxx = 0x50 ∷ 0x50 ∷ 0x5f ∷ []

abbrev pub tdp_min_gmxmgxx : List ℕ
tdp_min_gmxmgxx = 0x05 ∷ 0x05 ∷ 0x05 ∷ []

abbrev pub tdp_max_gmxmgxx : List ℕ
tdp_max_gmxmgxx = 0x78 ∷ 0x78 ∷ 0xc8 ∷ []

abbrev pub tdp_min_gmxtgxx : List ℕ
tdp_min_gmxtgxx = 0x05 ∷ 0x05 ∷ 0x05 ∷ []

abbrev pub tdp_max_gmxtgxx : List ℕ
tdp_max_gmxtgxx = 0x78 ∷ 0x78 ∷ 0xc8 ∷ []

abbrev pub tdp_min_gmxzgxx : List ℕ
tdp_min_gmxzgxx = 0x05 ∷ 0x05 ∷ 0x05 ∷ []

abbrev pub tdp_max_gmxzgxx : List ℕ
tdp_max_gmxzgxx = 0x50 ∷ 0x50 ∷ 0x5f ∷ []

abbrev pub tdp_min_gmxagxx : List ℕ
tdp_min_gmxagxx = 0x05 ∷ 0x05 ∷ 0x05 ∷ []

abbrev pub tdp_max_gmxagxx : List ℕ
tdp_max_gmxagxx = 0x78 ∷ 0x78 ∷ 0xd7 ∷ []

abbrev pub tdp_min_gmxrgxx : List ℕ
tdp_min_gmxrgxx = 0x05 ∷ 0x05 ∷ 0x05 ∷ []

abbrev pub tdp_max_gmxrgxx : List ℕ
tdp_max_gmxrgxx = 0x64 ∷ 0x64 ∷ 0x6e ∷ []

abbrev pub tdp_min_gmxpxxx : List ℕ
tdp_min_gmxpxxx = 0x05 ∷ 0x05 ∷ 0x05 ∷ []

abbrev pub tdp_max_gmxpxxx : List ℕ
tdp_max_gmxpxxx = 0x82 ∷ 0x82 ∷ 0xc8 ∷ []

abbrev pub tdp_min_gmxxgxx : List ℕ
tdp_min_gmxxgxx = 0x05 ∷ 0x05 ∷ 0x05 ∷ []

abbrev pub tdp_max_gmxxgxx : List ℕ
tdp_max_gmxxgxx = 0x50 ∷ 0x50 ∷ 0x64 ∷ []

abbrev pub tdp_min_gmxixxb_mb1 : List ℕ
tdp_min_gmxixxb_mb1 = 0x05 ∷ 0x05 ∷ 0x05 ∷ []

abbrev pub tdp_max_gmxixxb_mb1 : List ℕ
tdp_max_gmxixxb_mb1 = 0xcd ∷ 0xcd ∷ 0x190 ∷ []

abbrev pub tdp_min_gmxixxb_mb2 : List ℕ
tdp_min_gmxixxb_mb2 = 0x05 ∷ 0x05 ∷ 0x05 ∷ []

abbrev pub tdp_max_gmxixxb_mb2 : List ℕ
tdp_max_gmxixxb_mb2 = 0xa0 ∷ 0xa0 ∷ 0xfa ∷ []

abbrev pub tdp_min_gmxixxn : List ℕ
tdp_min_gmxixxn = 0x05 ∷ 0x05 ∷ 0x05 ∷ []

abbrev pub tdp_max_gmxixxn : List ℕ
tdp_max_gmxixxn = 0xa0 ∷ 0xa0 ∷ 0xfa ∷ []

abbrev pub tdp_min_gmxixxa : List ℕ
tdp_min_gmxixxa = 0x05 ∷ 0x05 ∷ 0x05 ∷ []

abbrev pub tdp_max_gmxixxa : List ℕ
tdp_max_gmxixxa = 0x8c ∷ 0x8c ∷ 0xc8 ∷ []

abbrev pub tdp_min_gmxhgxa : List ℕ
tdp_min_gmxhgxa = 0x05 ∷ 0x05 ∷ 0x05 ∷ []

abbrev pub tdp_max_gmxhgxa : List ℕ
tdp_max_gmxhgxa = 0x5a ∷ 0x5a ∷ 0x64 ∷ []

abbrev pub tdp_min_x6ar5xx : List ℕ
tdp_min_x6ar5xx = 0x05 ∷ 0x05 ∷ 0x05 ∷ []

abbrev pub tdp_max_x6ar5xx : List ℕ
tdp_max_x6ar5xx = 0xd2 ∷ 0xd2 ∷ 0x1a4 ∷ []

abbrev pub tdp_min_x6fr5xx : List ℕ
tdp_min_x6fr5xx = 0x19 ∷ 0x19 ∷ 0x19 ∷ []

abbrev pub tdp_max_x6fr5xx : List ℕ
tdp_max_x6fr5xx = 0xa2 ∷ 0xa2 ∷ 0xc3 ∷ []

abbrev pub tdp_min_xxxx45xs : List ℕ
tdp_min_xxxx45xs = 0x0a ∷ 0x0a ∷ 0x0a ∷ []

abbrev pub tdp_max_xxxx45xs : List ℕ
tdp_max_xxxx45xs = 0x64 ∷ 0x64 ∷ 0x69 ∷ []

abbrev pub tdp_min_x6ar55xu : List ℕ
tdp_min_x6ar55xu = 0x0a ∷ 0x0a ∷ 0x0a ∷ []

abbrev pub tdp_max_x6ar55xu : List ℕ
tdp_max_x6ar55xu = 0x91 ∷ 0x9b ∷ 0x122 ∷ []

abbrev pub tdp_min_x5ar45xs : List ℕ
tdp_min_x5ar45xs = 0x0a ∷ 0x0a ∷ 0x0a ∷ []

abbrev pub tdp_max_x5ar45xs : List ℕ
tdp_max_x5ar45xs = 0x5a ∷ 0x5a ∷ 0xe6 ∷ []

abbrev pub tdp_min_x6xx45xu : List ℕ
tdp_min_x6xx45xu = 0x0a ∷ 0x0a ∷ 0x0a ∷ []

abbrev pub tdp_max_x6xx45xu : List ℕ
tdp_max_x6xx45xu = 0x64 ∷ 0x64 ∷ 0x69 ∷ []

abbrev pub tdp_min_xxaf5xxx : List ℕ
tdp_min_xxaf5xxx = 0x0a ∷ 0x0a ∷ 0x0a ∷ []

abbrev pub tdp_max_xxaf5xxx : List ℕ
tdp_max_xxaf5xxx = 0xd2 ∷ 0xd2 ∷ 0x1a4 ∷ []

-- The model of the device's features, and what the firmware says of it.
unfoldable pub uw_id_tdp : ℕ → Dmi → Option (List ℕ × List ℕ)
uw_id_tdp model dmi =
    if model == uw_model_ph4tux
    then some (tdp_min_ph4tux, tdp_max_ph4tux)
    else if model == uw_model_ph4trx
    then some (tdp_min_ph4trx, tdp_max_ph4trx)
    else if model == uw_model_ph4tqf
    then some (tdp_min_ph4tqx, tdp_max_ph4tqx)
    else if dmi product_sku "IBP1XI07MK1"
    then some (tdp_min_phxaxx_mk1, tdp_max_phxaxx_mk1)
    else if dmi product_sku "IBP1XI07MK2"
    then some (tdp_min_phxaxx_mk2, tdp_max_phxaxx_mk2)
    else if dmi product_sku "IBP1XI08MK1"
        || dmi product_sku "IBP1XI08MK2"
        || dmi product_sku "IBP14I08MK2"
        || dmi product_sku "IBP16I08MK2"
        || dmi product_sku "OMNIA08IMK2"
    then some (tdp_min_phxpxx, tdp_max_phxpxx)
    else if dmi product_sku "PULSE1502"
    then some (tdp_min_pfxluxg, tdp_max_pfxluxg)
    else if dmi product_sku "POLARIS1XA02"
    then some (tdp_min_gmxngxx, tdp_max_gmxngxx)
    else if dmi product_sku "POLARIS1XI02"
    then some (tdp_min_gmxmgxx, tdp_max_gmxmgxx)
    else if dmi product_sku "POLARIS1XI03" || dmi product_sku "STELLARIS1XI03"
    then some (tdp_min_gmxtgxx, tdp_max_gmxtgxx)
    else if dmi product_sku "POLARIS1XA03" || dmi product_sku "STELLARIS1XA03"
    then some (tdp_min_gmxzgxx, tdp_max_gmxzgxx)
    else if dmi product_sku "STELLARIS1XI04"
    then some (tdp_min_gmxagxx, tdp_max_gmxagxx)
    else if dmi product_sku "STEPOL1XA04"
    then some (tdp_min_gmxrgxx, tdp_max_gmxrgxx)
    else if dmi product_sku "STELLARIS1XI05"
    then some (tdp_min_gmxpxxx, tdp_max_gmxpxxx)
    else if dmi product_sku "POLARIS1XA05"
    then some (tdp_min_gmxxgxx, tdp_max_gmxxgxx)
    else if dmi product_sku "STELLARIS1XA05"
    then some (tdp_min_gmxxgxx, tdp_max_gmxxgxx)
    else if dmi product_sku "STELLARIS16I06" && dmi board_name "GM6IXxB_MB1"
    then some (tdp_min_gmxixxb_mb1, tdp_max_gmxixxb_mb1)
    else if dmi product_sku "STELLARIS16I06" && dmi board_name "GM6IXxB_MB2"
    then some (tdp_min_gmxixxb_mb2, tdp_max_gmxixxb_mb2)
    else if dmi product_sku "STELLARIS17I06"
    then some (tdp_min_gmxixxn, tdp_max_gmxixxn)
    else if dmi product_sku "STELLSL15I06"
    then some (tdp_min_gmxixxa, tdp_max_gmxixxa)
    else if dmi product_sku "STELLSL15A06"
    then some (tdp_min_gmxhgxa, tdp_max_gmxhgxa)
    else if dmi product_sku "STELLARIS16I07"
    then some (tdp_min_x6ar5xx, tdp_max_x6ar5xx)
    else if dmi product_sku "STELLARIS16A07"
    then some (tdp_min_x6fr5xx, tdp_max_x6fr5xx)
    else if dmi board_name "X5KK45xS_X5SP45xS"
    then some (tdp_min_xxxx45xs, tdp_max_xxxx45xs)
    else if dmi board_name "X6AR55xU"
    then some (tdp_min_x6ar55xu, tdp_max_x6ar55xu)
    else if dmi board_name "X5AR45xS"
    then some (tdp_min_x5ar45xs, tdp_max_x5ar45xs)
    else if dmi board_name "X6KK45xU_X6SP45xU"
    then some (tdp_min_x6xx45xu, tdp_max_x6xx45xu)
    else if dmi board_name "XxAF5xxx" || dmi board_name "XxAF5xxx_mLED"
    then some (tdp_min_xxaf5xxx, tdp_max_xxaf5xxx)
    else none
