-- ===== src/Pfs/Accepts.antt =====
-- Which volumes `probe` of core/pfs.cpp accepts, and what it reports about the others.
use ps2_driveforge.Base.{
  ◌≤◌, ◌≡◌, refl, ap, ◌∙◌, sym, subst, ◌⊎◌, ◌↔◌, inl, inr, true, false, none, some, ok, arith,
  length, Option-cases, Result-cases, ◌==◌,
}
use ps2_driveforge.Apa.Header.{type_pfs, is_sub}
use ps2_driveforge.Volume.{ApaVolume}
use ps2_driveforge.Pfs.Types.{super_magic, super_sector, SuperBlock}
use ps2_driveforge.Pfs.ZoneSize.{ZoneSize, valid_zone_size_iff}
use ps2_driveforge.Pfs.Metadata.{Reader, make_reader, valid, zone_size}
use ps2_driveforge.Pfs.Probe.{
  ProbeResult, read_super, available_subs, check_super, accept, probe_super, probe,
}

-- the superblock of a supported file system on this volume
pub record IsSound (volume : ApaVolume) (super : SuperBlock) : Type 0 where
  pub marked : super.magic ≡ super_magic
  pub supported : super.version ≤ 3
  pub zones : ZoneSize super.zone_size
  pub attached : super.num_subs ≤ available_subs volume
  pub root_attached : super.root.subpart ≤ super.num_subs
  pub log_attached : super.log.subpart ≤ super.num_subs

check_super_iff :
    (volume : ApaVolume) (super : SuperBlock)
    → (check_super volume super ≡ ok tt) ↔ IsSound volume super
unfolding check_super
check_super_iff volume super = (
  (λ h. record {
    marked = ground arith;
    supported = ground arith;
    zones = (valid_zone_size_iff super.zone_size).0 (ground arith);
    attached = ground arith;
    root_attached = ground arith;
    log_attached = ground arith;
  }),
  (λ s.
      let z = (valid_zone_size_iff super.zone_size).1 s.zones in
      let a = s.marked in
      let b = s.supported in
      let c = s.attached in let d = s.root_attached in let e = s.log_attached in ground arith),
)

-- a main PFS partition with a sound superblock at sector 8192
pub record IsMountable (volume : ApaVolume) : Type 0 where
  pub super : SuperBlock
  pub typed : volume.partition.type ≡ type_pfs
  pub main : is_sub volume.partition ≡ false
  pub stored : read_super volume super_sector ≡ some super
  pub sound : IsSound volume super

probe-stored :
    (volume : ApaVolume) (super : SuperBlock)
    → volume.partition.type ≡ type_pfs
    → is_sub volume.partition ≡ false
    → read_super volume super_sector ≡ some super
    → probe volume ≡ probe_super volume super
unfolding probe
probe-stored volume super typed main stored =
    let t : (volume.partition.type == type_pfs) ≡ true = ground arith in rw (t, main, probe, stored)

probe_super_valid :
    (volume : ApaVolume) (super : SuperBlock)
    → ((probe_super volume super).valid ≡ true) ↔ (check_super volume super ≡ ok tt)
unfolding probe_super accept
probe_super_valid volume super = elim (Result-cases (check_super volume super)) [
  | inl (u, e) ↦ rw (e, probe_super) ((λ h. refl), (λ h. refl))
  | inr (x, e) ↦ rw (e, probe_super) ((λ h. cc), (λ h. cc))
]

probe_super_keeps :
    (volume : ApaVolume) (super : SuperBlock) → (probe_super volume super).super ≡ super
unfolding probe_super accept
probe_super_keeps volume super = elim (Result-cases (check_super volume super)) [
  | inl (u, e) ↦ rw (e, probe_super)
  | inr (x, e) ↦ rw (e, probe_super)
]

checked :
    (volume : ApaVolume)
    → (probe volume).valid ≡ true
    → (volume.partition.type ≡ type_pfs) × (is_sub volume.partition ≡ false)
unfolding probe
checked volume h = ground arith

unreadable :
    (volume : ApaVolume) → read_super volume super_sector ≡ none → (probe volume).valid ≡ false
unfolding probe
unreadable volume h = ground arith

valid-IsMountable : (volume : ApaVolume) → (probe volume).valid ≡ true → IsMountable volume
valid-IsMountable volume h = elim (Option-cases (read_super volume super_sector)) [
  | inl none_there ↦ cc (h, unreadable volume none_there)
  | inr (super, stored) ↦
      let (typed, main) = checked volume h in
      record {
        super = super;
        typed = typed;
        main = main;
        stored = stored;
        sound = (check_super_iff volume super).0 (
            (probe_super_valid volume super).0
              (rw (probe-stored volume super typed main stored) at h));
      }
]

-- A volume is accepted exactly where it is a main PFS partition with a sound superblock, the one
-- that the result then holds.
pub probe_iff :
    (volume : ApaVolume)
    → ((probe volume).valid ≡ true) ↔ ((m : IsMountable volume) × ((probe volume).super ≡ m.super))
probe_iff volume = (
  (λ h.
      let m = valid-IsMountable volume h in
      (
        m,
        rw (probe-stored volume m.super m.typed m.main m.stored) (probe_super_keeps volume m.super),
      )),
  (λ (m, e).
      rw (probe-stored volume m.super m.typed m.main m.stored)
        ((probe_super_valid volume m.super).1 ((check_super_iff volume m.super).1 m.sound))),
)

-- An accepted volume reports no error, and any other volume exactly one.
pub probe_reports :
    (volume : ApaVolume)
    → (((probe volume).valid ≡ true) × (length (probe volume).errors ≡ 0))
      ⊎ (((probe volume).valid ≡ false) × (length (probe volume).errors ≡ 1))
unfolding probe probe_super accept
probe_reports volume = ground arith

-- both constructors of `Reader`: the one that probes, and the one that is given the result of an
-- earlier probe of the same volume
abbrev pub IsProbed : Reader → Type 0
IsProbed r = r.probe_result ≡ probe r.volume

pub make_reader-IsProbed : (volume : ApaVolume) → IsProbed (make_reader volume)
unfolding make_reader
make_reader-IsProbed volume = refl

-- so a reader that is valid has one of the Seven zone sizes
pub valid-ZoneSize : (r : Reader) → IsProbed r → valid r ≡ true → ZoneSize (zone_size r)
valid-ZoneSize r probed h =
    let (m, e) = (probe_iff r.volume).0 (rw (← probed) h) in
    subst (λ (s : SuperBlock). ZoneSize s.zone_size)
      (sym (ap (λ (p : ProbeResult). p.super) probed ∙ e)) m.sound.zones
