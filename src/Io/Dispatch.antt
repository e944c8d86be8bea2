-- ===== src/Io/Dispatch.antt =====
-- src/tuxedo_io/tuxedo_io.c: requests one after the other, through the dispatch.
use tuxedo_drivers.Common.{
  ℕ, zero, suc, ◌*◌, ◌/◌, ◌^◌, ◌≤◌, ◌<◌, ◌≡◌, refl, ap, ◌∙◌, sym, arith, Bool, true, false,
  if◌then◌else◌, ◌==◌, ◌&&◌, Ram, pos, success, u32_of_int, u8, Option, some, none,
}
use tuxedo_drivers.Uniwill.Dmi.{Dmi, any_match}
use tuxedo_drivers.Uniwill.Interface.{Reply, UniwillInterface, IsEcRam}
use tuxedo_drivers.Uniwill.Access.{Uniwill, Features}
use tuxedo_drivers.Uniwill.Access.Ready.{IsReady}
use tuxedo_drivers.Uniwill.Features.{uniwill_get_active_interface_id, uniwill_get_device_features}
use tuxedo_drivers.Uniwill.Features.Model.{get_device_features-model}
use tuxedo_drivers.Uniwill.Tdp.{uw_get_tdp, uw_get_tdp_min, uw_get_tdp_max, uw_set_tdp}
use tuxedo_drivers.Uniwill.Tdp.Tables.{uw_id_tdp}
use tuxedo_drivers.Uniwill.Tdp.Set.{get-set_tdp}
use tuxedo_drivers.Io.{
  Io, Command, nothing, word, Outcome, fault, returned, w_uw_tdp0, w_uw_tdp1, w_uw_tdp2, r_uw_tdp0,
  r_uw_tdp1, r_uw_tdp2, r_hwcheck_uw, r_uw_model_id, r_cl_webcam_sw, w_cl_webcam_sw,
}
use tuxedo_drivers.Io.ClevoIoctl.{aura_gen3, clevo_ioctl_interface}
use tuxedo_drivers.Io.UniwillIoctl.{
  int_of_u32, uniwill_ioctl_interface, uniwill_identify, identify, fop_ioctl, sets_tdp,
  last_outcome,
}

-- The requests that set and read the limit of an index.
abbrev pub set_request : ℕ → Command
set_request zero = w_uw_tdp0
set_request (suc zero) = w_uw_tdp1
set_request (suc (suc index)) = w_uw_tdp2

abbrev pub get_request : ℕ → Command
get_request zero = r_uw_tdp0
get_request (suc zero) = r_uw_tdp1
get_request (suc (suc index)) = r_uw_tdp2

same_features :
    {U : Type 0} (dmi : Dmi) (un : ℕ) (u : Uniwill U)
    → (uniwill_get_device_features dmi un u).0 ≡ (uniwill_get_device_features dmi un u).1.feats
unfolding uniwill_get_device_features
same_features dmi un u = ground arith

module _ {C U : Type 0} (dmi : Dmi) (start : Reply) (un arg : ℕ) where
  abbrev with_outcome : Io C U → Outcome × Uniwill U → Outcome × Io C U
  with_outcome io r = (last_outcome nothing r.0, record io { uniwill = r.1 })

  set_tdp :
      (index v : ℕ) (io : Io C U)
      → v < 2 ^ 31
      → io.uw_feats ≡ true
      → with_outcome io (sets_tdp io.uw_feats io.limits index v io.uniwill) ≡ (
        returned success nothing,
        record io { uniwill = (uw_set_tdp io.limits index (pos v) io.uniwill).1 },
      )
  set_tdp index v io small h =
      let as_int : int_of_u32 v ≡ pos v = ground arith in
      ap (λ (f : Bool). with_outcome io (sets_tdp f io.limits index v io.uniwill)) h
      ∙ ap
          (λ z.
            with_outcome io (returned success nothing, (uw_set_tdp io.limits index z io.uniwill).1))
          as_int

  -- One request while the features are known.
  set_lem :
      (index v : ℕ) (io : Io C U)
      → index ≤ 2
      → v < 2 ^ 31
      → io.uw_feats ≡ true
      → fop_ioctl dmi start un (set_request index) (some v) arg io ≡ (
        returned success nothing,
        record io { uniwill = (uw_set_tdp io.limits index (pos v) io.uniwill).1 },
      )
  unfolding fop_ioctl identify clevo_ioctl_interface uniwill_ioctl_interface
  set_lem zero v io p small h = set_tdp 0 v io small h
  set_lem (suc zero) v io p small h = set_tdp 1 v io small h
  set_lem (suc (suc zero)) v io p small h = set_tdp 2 v io small h
  set_lem (suc (suc (suc index))) v io p small h = absurd (omega arith)

  get_lem :
      (index : ℕ) (user : Option ℕ) (io : Io C U)
      → index ≤ 2
      → (fop_ioctl dmi start un (get_request index) user arg io).0
        ≡ returned success (word (u32_of_int (uw_get_tdp io.limits un index io.uniwill).0))
  unfolding fop_ioctl identify clevo_ioctl_interface uniwill_ioctl_interface
  get_lem zero user io p = refl
  get_lem (suc zero) user io p = refl
  get_lem (suc (suc zero)) user io p = refl
  get_lem (suc (suc (suc index))) user io p = absurd (omega arith)

  module _ (i : UniwillInterface U) (ready : U → Type 0) (ram : U → Ram) (law : IsEcRam i ready ram)
      (index low high v : ℕ) (io : Io C U) (in_array : index ≤ 2)
      (is_low : uw_get_tdp_min io.limits index ≡ pos low)
      (is_high : uw_get_tdp_max io.limits index ≡ pos high) (above : low ≤ v)
      (below : v ≤ high) where
    -- Over an EC RAM, with the features known, a value within the limits of an index that is set by
    -- its request is given by the request that reads that limit, but for the lowest bit where the
    -- limit is stored halved. What is stored must fit into a byte.
    pub tdp_requests_round :
        (user : Option ℕ)
        → IsReady i ready ram law io.uniwill
        → io.uw_feats ≡ true
        → (if index == 2 && io.uniwill.feats.has_double_pl4 then v / 2 else v) < 256
        → let set = fop_ioctl dmi start un (set_request index) (some v) arg io in
          (set.0 ≡ returned success nothing)
          × ((fop_ioctl dmi start un (get_request index) user arg set.1).0
              ≡ returned success
                  (word (if index == 2 && io.uniwill.feats.has_double_pl4 then v / 2 * 2 else v)))
    tdp_requests_round user r h fit =
        let small : v < 2 ^ 31 = ground (arith, fit) in
        let e = set_lem index v io in_array small h in
        let b =
          get-set_tdp i ready ram law io.limits index low high v in_array is_low is_high above below
            un io.uniwill r fit in
        (
          ap (λ x. x.0) e,
          ap (λ x. (fop_ioctl dmi start un (get_request index) user arg x.1).0) e
              ∙ (get_lem index user
                    (record io { uniwill = (uw_set_tdp io.limits index (pos v) io.uniwill).1 })
                    in_array
                  ∙ ap (λ z. returned success (word (u32_of_int z))) b.1),
        )

  -- On a device that refuses the webcam's requests they return a positive number, that of -ENODEV
  -- modulo 2 ^ 32, and not an error, and they change nothing.
  pub webcam_refusal :
      (user : Option ℕ) (io : Io C U)
      → aura_gen3 dmi ≡ true
      → (fop_ioctl dmi start un w_cl_webcam_sw user arg io
          ≡ (returned (pos 4294967277) nothing, io))
        × (fop_ioctl dmi start un r_cl_webcam_sw user arg io
            ≡ (returned (pos 4294967277) nothing, io))
  unfolding fop_ioctl identify clevo_ioctl_interface any_match
  webcam_refusal user io h = (ground (arith, h), ground (arith, h))

  -- The state after the check found a table.
  abbrev known : Io C U → Io C U
  known io =
      let f = uniwill_get_device_features dmi un io.uniwill in
      record io {
        uniwill = f.1;
        id_check_uniwill = 1;
        uw_feats = true;
        limits = uw_id_tdp f.0.model dmi;
      }

  check_lem :
      (io : Io C U) (user : Option ℕ) (t : UniwillInterface U)
      → io.uniwill.wmi ≡ some t
      → fop_ioctl dmi start un r_hwcheck_uw user arg io ≡ (returned success (word 1), known io)
  unfolding fop_ioctl identify clevo_ioctl_interface uniwill_ioctl_interface uniwill_identify
      uniwill_get_active_interface_id
  check_lem io user t there =
      let found : uniwill_identify dmi un io ≡ (
        1,
        record io {
          uniwill = (uniwill_get_device_features dmi un io.uniwill).1;
          uw_feats = true;
          limits = uw_id_tdp (uniwill_get_device_features dmi un io.uniwill).0.model dmi;
        },
      ) =
        ground (arith, there) in
      ap
        (λ (r : ℕ × Io C U). (returned success (word r.0), record (r.1) { id_check_uniwill = r.0 }))
        found

  -- Without a table the check finds nothing, and the features stay unknown.
  missing_lem :
      (io : Io C U) (user : Option ℕ)
      → io.uniwill.wmi ≡ none
      → fop_ioctl dmi start un r_hwcheck_uw user arg io
        ≡ (returned success (word 0), record io { id_check_uniwill = 0 })
  unfolding fop_ioctl identify clevo_ioctl_interface uniwill_ioctl_interface uniwill_identify
      uniwill_get_active_interface_id
  missing_lem io user missing =
      let found : uniwill_identify dmi un io ≡ (0, io) = ground (arith, missing) in
      ap
        (λ (r : ℕ × Io C U). (returned success (word r.0), record (r.1) { id_check_uniwill = r.0 }))
        found

  -- While the features are not known the request of the model uses them all the same. Over an EC RAM
  -- the hardware check gives 1, and then the request gives the byte of the EC at 0x0740, and the
  -- limits are those of that model. Without a table the check gives 0, and the request still uses the
  -- features that are not known.
  pub hwcheck_enables :
      (i : UniwillInterface U) (ready : U → Type 0) (ram : U → Ram) (law : IsEcRam i ready ram)
      (io other : Io C U) (user user' : Option ℕ)
      → IsReady i ready ram law io.uniwill
      → io.uw_feats ≡ false
      → io.uniwill.feats_loaded ≡ false
      → other.uniwill.wmi ≡ none
      → other.uw_feats ≡ false
      → let x = fop_ioctl dmi start un r_hwcheck_uw user arg io in
        let y = fop_ioctl dmi start un r_hwcheck_uw user arg other in
        let model = u8 (ram io.uniwill.ec 0x0740) in
        ((fop_ioctl dmi start un r_uw_model_id user arg io).0 ≡ fault)
        × (x.0 ≡ returned success (word 1))
        × (x.1.limits ≡ uw_id_tdp model dmi)
        × ((fop_ioctl dmi start un r_uw_model_id user' arg x.1).0 ≡ returned success (word model))
        × (y.0 ≡ returned success (word 0))
        × ((fop_ioctl dmi start un r_uw_model_id user' arg y.1).0 ≡ fault)
  unfolding fop_ioctl identify clevo_ioctl_interface uniwill_ioctl_interface
  hwcheck_enables i ready ram law io other user user' r h fresh missing unknown =
      let e = check_lem io user i r.registered in
      let m = get_device_features-model i ready ram law dmi un io.uniwill r fresh in
      let n = ap (λ (f : Features). f.model) (sym (same_features dmi un io.uniwill)) ∙ m in
      let none_found = missing_lem other user missing in
      (
        ground (arith, h),
        ap (λ (x : Outcome × Io C U). x.0) e,
        ap (λ (x : Outcome × Io C U). x.1.limits) e ∙ ap (λ model. uw_id_tdp model dmi) m,
        ap (λ (x : Outcome × Io C U). (fop_ioctl dmi start un r_uw_model_id user' arg x.1).0) e
            ∙ ap (λ model. returned success (word model)) n,
        ap (λ (x : Outcome × Io C U). x.0) none_found,
        ap (λ (x : Outcome × Io C U). (fop_ioctl dmi start un r_uw_model_id user' arg x.1).0)
              none_found
            ∙ ground (arith, unknown),
      )
