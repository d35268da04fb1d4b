-- ===== src/Hook/Shown.antt =====
-- Which image a start-up looks at: the one in the slot that the bootloader was built for.
use ruuvi_air_mcuboot.Prelude.{
  ℕ, ◌≡◌, ◌∙◌, sym, refl, inl, inr, Option, none, some, ◌>>=◌, >>=-eq-some,
}
use ruuvi_air_mcuboot.Prelude.{◌==◌, if◌then◌else◌, Bool-cases, ap}
use ruuvi_air_mcuboot.Platform.Format.{ImageFormat}
use ruuvi_air_mcuboot.Platform.Flash.{FlashApi}
use ruuvi_air_mcuboot.Platform.System.{SystemApi, Config}
use ruuvi_air_mcuboot.Platform.Hook.{HookConfig}
use ruuvi_air_mcuboot.HwRev.Defs.{HwRev, no_hw_rev}
use ruuvi_air_mcuboot.Hook.Defs.{print_image_info, on_startup_print_slots_info_and_get_hw_rev}
use ruuvi_air_mcuboot.Hook.Run.{active_slot_of, active_fa_id_of}

-- The variant of the image is built for the slot s1, the image itself for s0.
abbrev pub running_slot : HookConfig → Config → ℕ
running_slot hcfg cfg = if hcfg.is_variant_image then cfg.s1 else cfg.s0

pub active_fa_id_lem :
    (hcfg : HookConfig) (cfg : Config)
    → active_fa_id_of cfg (active_slot_of hcfg) ≡ running_slot hcfg cfg
unfolding active_fa_id_of active_slot_of
active_fa_id_lem hcfg cfg = elim (Bool-cases hcfg.is_variant_image) [
  | inl e ↦ rw e refl
  | inr e ↦ rw e refl
]

-- The revision that has been read, or none.
abbrev pub rev_or_none : Option HwRev → HwRev
rev_or_none none = no_hw_rev
rev_or_none (some h) = h

module _ {W : Type 0} (fmt : ImageFormat) (cfg : Config) (sys : SystemApi W) (flash : FlashApi W)
    (hcfg : HookConfig) where
  -- The four slots are read in turn; `hw` is the revision that the image in the running one names.
  pub record Shown (start : W) (hw : HwRev) (end : W) : Type 0 where
    pub in_s0 : Option HwRev
    pub in_s1 : Option HwRev
    pub in_primary : Option HwRev
    pub in_secondary : Option HwRev
    pub after_s0 : W
    pub after_s1 : W
    pub after_primary : W
    pub s0_read : print_image_info fmt cfg sys flash cfg.s0 start ≡ some (in_s0, after_s0)
    pub s1_read : print_image_info fmt cfg sys flash cfg.s1 after_s0 ≡ some (in_s1, after_s1)
    pub primary_read :
        print_image_info fmt cfg sys flash cfg.mcuboot_primary after_s1
        ≡ some (in_primary, after_primary)
    pub secondary_read :
        print_image_info fmt cfg sys flash cfg.mcuboot_secondary after_primary
        ≡ some (in_secondary, end)
    pub is_running : hw ≡ rev_or_none (if hcfg.is_variant_image then in_s1 else in_s0)

  chosen_lem :
      (a b : Option HwRev)
      → (elim (if active_slot_of hcfg == 0 then a else b) [ none ↦ no_hw_rev | some h ↦ h ])
        ≡ rev_or_none (if hcfg.is_variant_image then b else a)
  unfolding active_slot_of
  chosen_lem a b = elim (Bool-cases hcfg.is_variant_image) [
    | inl e ↦ rw e (same b)
    | inr e ↦ rw e (same a)
  ]
    where
      same : (o : Option HwRev) → (elim o [ none ↦ no_hw_rev | some h ↦ h ]) ≡ rev_or_none o
      same none = refl
      same (some h) = refl

  pub slots_info-Shown :
      (w : W) (hw : HwRev) (v : W)
      → on_startup_print_slots_info_and_get_hw_rev fmt cfg sys flash (active_slot_of hcfg) w
        ≡ some (hw, v)
      → Shown w hw v
  unfolding on_startup_print_slots_info_and_get_hw_rev
  slots_info-Shown w hw v run =
      let (a, t, p, q) = >>=-eq-some (print_image_info fmt cfg sys flash cfg.s0) _ w hw v run in
      let (b, u, p', q') = >>=-eq-some (print_image_info fmt cfg sys flash cfg.s1) _ t hw v q in
      let (c, x, p'', q'') =
        >>=-eq-some (print_image_info fmt cfg sys flash cfg.mcuboot_primary) _ u hw v q' in
      let (d, y, p''', q''') =
        >>=-eq-some (print_image_info fmt cfg sys flash cfg.mcuboot_secondary) _ x hw v q'' in
      record {
        in_s0 = a;
        in_s1 = b;
        in_primary = c;
        in_secondary = d;
        after_s0 = t;
        after_s1 = u;
        after_primary = x;
        s0_read = p;
        s1_read = p';
        primary_read = p'';
        secondary_read = cc (p''', q''');
        is_running = cc (q''', chosen_lem a b);
      }

  pub Shown-slots_info :
      (w : W) (hw : HwRev) (v : W)
      → Shown w hw v
      → on_startup_print_slots_info_and_get_hw_rev fmt cfg sys flash (active_slot_of hcfg) w
        ≡ some (hw, v)
  unfolding on_startup_print_slots_info_and_get_hw_rev
  Shown-slots_info w hw v s =
      rw (s.s0_read, ◌>>=◌, s.s1_read, ◌>>=◌, s.primary_read, ◌>>=◌, s.secondary_read, ◌>>=◌)
        (ap (λ h. some (h, v)) (chosen_lem s.in_s0 s.in_s1 ∙ sym s.is_running))
